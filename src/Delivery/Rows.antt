-- ===== src/Delivery/Rows.antt =====
-- notifications/discord.py: how a drain changes the rows of the outbox, one by one.
use smartwatch_clank.Base.{
  ℕ, ◌≤◌, ◌≡◌, ◌≢◌, refl, sym, ◌∙◌, subst, Bool, true, false, none, some, List, [], ◌∷◌, keep_if,
  All, All-keep_if, ◌==◌, nat_eq, nat_beq_iff, Bool-cases, Option-cases, inl, inr, arith,
}
use smartwatch_clank.Platform.{Platform}
use smartwatch_clank.Store.{Notification, pending, sent, failed, held}
use smartwatch_clank.Store.Outbox.{
  update_row, marked, mark_notification, defer_notification, last_notification_id,
}
use smartwatch_clank.Delivery.Policy.{ActivationPolicy, reason}
use smartwatch_clank.Delivery.Discord.{
  Session, Effect, skip_deferred, hold, delivered, limit_until, give_up, retry_later, crash, Tally,
  effect, write, count_effect, stops, next_row, drain_rows,
}

abbrev pub UniqueIds : List Notification → Type 0
UniqueIds [] = Unit
UniqueIds (r ∷ rs) = All (λ n. n.id ≢ r.id) rs × UniqueIds rs

-- The ids of an outbox are distinct, and none is above the last.
pub record IsOutbox (rows : List Notification) : Type 0 where
  pub unique : UniqueIds rows
  pub below : All (λ r. r.id ≤ last_notification_id rows) rows

-- The row `r` is the only one of its id.
abbrev pub IsTheRow : List Notification → Notification → Type 0
IsTheRow rows r = All (λ n. n.id ≡ r.id → n ≡ r) rows

-- Two outboxes of the same length, related row by row.
abbrev pub Pointwise :
    (Notification → Notification → Type 0) → List Notification → List Notification → Type 0
Pointwise R [] [] = Unit
Pointwise R (x ∷ xs) (y ∷ ys) = R x y × Pointwise R xs ys
Pointwise R _ _ = ⊥

-- What an effect makes of its own row.
unfoldable pub row_after : Platform → Session → ℕ → Effect → Notification → Notification
row_after p session id skip_deferred r = r
row_after p session id (hold verdict) r =
    marked held (some (reason verdict)) none false (session.marked_at id) r
row_after p session id (delivered http_status) r =
    marked sent none http_status true (session.marked_at id) r
row_after p session id (limit_until until) r = record r { not_before = some (p.isoformat until) }
row_after p session id (give_up error http_status) r =
    marked failed error http_status true (session.marked_at id) r
row_after p session id (retry_later error http_status) r =
    marked pending error http_status true (session.marked_at id) r
row_after p session id (crash e) r = r

update_nothing : (id : ℕ) (rows : List Notification) → update_row id (λ r. r) rows ≡ rows
unfolding update_row
update_nothing id [] = refl
update_nothing id (r ∷ rs) = ground (arith, update_nothing id rs)

pub write-eq-update_row :
    (p : Platform) (session : Session) (row : Notification) (e : Effect) (rows : List Notification)
    → write p session row e rows ≡ update_row row.id (row_after p session row.id e) rows
unfolding write row_after mark_notification defer_notification
write-eq-update_row p session row skip_deferred rows = sym (update_nothing row.id rows)
write-eq-update_row p session row (hold verdict) rows = refl
write-eq-update_row p session row (delivered http_status) rows = refl
write-eq-update_row p session row (limit_until until) rows = refl
write-eq-update_row p session row (give_up error http_status) rows = refl
write-eq-update_row p session row (retry_later error http_status) rows = refl
write-eq-update_row p session row (crash e) rows = sym (update_nothing row.id rows)

pub row_after-id :
    (p : Platform) (session : Session) (id : ℕ) (e : Effect) (r : Notification)
    → (row_after p session id e r).id ≡ r.id
unfolding row_after marked
row_after-id p session id skip_deferred r = refl
row_after-id p session id (hold verdict) r = refl
row_after-id p session id (delivered http_status) r = refl
row_after-id p session id (limit_until until) r = refl
row_after-id p session id (give_up error http_status) r = refl
row_after-id p session id (retry_later error http_status) r = refl
row_after-id p session id (crash e) r = refl

-- An update of one row keeps the others the only ones of their ids.
update_row-IsTheRow :
    (id : ℕ) (f : Notification → Notification) (rows : List Notification) (r : Notification)
    → ((n : Notification) → (f n).id ≡ n.id)
    → r.id ≢ id
    → IsTheRow rows r
    → IsTheRow (update_row id f rows) r
unfolding update_row
update_row-IsTheRow id f [] r same ne h = tt
update_row-IsTheRow id f (n ∷ rows) r same ne h = (
  elim (Bool-cases (n.id == id)) [
    | inl q ↦ rw q (λ e. absurd (ne (sym e ∙ same n ∙ (nat_beq_iff n.id id).0 q)))
    | inr q ↦ rw q h.0
  ],
  update_row-IsTheRow id f rows r same ne h.1,
)

All-update :
    (id : ℕ) (f : Notification → Notification) (rows todo : List Notification)
    → ((n : Notification) → (f n).id ≡ n.id)
    → All (λ n. n.id ≢ id) todo
    → All (IsTheRow rows) todo
    → All (IsTheRow (update_row id f rows)) todo
All-update id f rows [] same ne h = tt
All-update id f rows (r ∷ todo) same ne h =
    (update_row-IsTheRow id f rows r same ne.0 h.0, All-update id f rows todo same ne.1 h.1)

pub unique-IsTheRow : (rows : List Notification) → UniqueIds rows → All (IsTheRow rows) rows
unique-IsTheRow [] u = tt
unique-IsTheRow (r ∷ rows) u =
    ((λ _. refl, others r rows u.0), also r rows rows u.0 (unique-IsTheRow rows u.1))
  where
    others :
        (r : Notification) (rows : List Notification)
        → All (λ n. n.id ≢ r.id) rows
        → IsTheRow rows r
    others r [] h = tt
    others r (n ∷ rows) h = (λ e. absurd (h.0 e), others r rows h.1)

    also :
        (r : Notification) (rows xs : List Notification)
        → All (λ n. n.id ≢ r.id) xs
        → All (IsTheRow rows) xs
        → All (IsTheRow (r ∷ rows)) xs
    also r rows [] h k = tt
    also r rows (x ∷ xs) h k = ((λ e. absurd (h.0 (sym e)), k.0), also r rows xs h.1 k.1)

pub keep_if-UniqueIds :
    (p : Notification → Bool) (rows : List Notification)
    → UniqueIds rows
    → UniqueIds (keep_if p rows)
keep_if-UniqueIds p [] u = tt
keep_if-UniqueIds p (r ∷ rows) u =
    ground (arith, keep_if-UniqueIds p rows u.1, All-keep_if (λ n. n.id ≢ r.id) p rows u.0)

update_row-Pointwise :
    (R : Notification → Notification → Type 0) (f : Notification → Notification) (r : Notification)
    (rows : List Notification)
    → ((n : Notification) → R n n)
    → R r (f r)
    → IsTheRow rows r
    → Pointwise R rows (update_row r.id f rows)
unfolding update_row
update_row-Pointwise R f r [] same step h = tt
update_row-Pointwise R f r (n ∷ rows) same step h = (
  elim (Bool-cases (n.id == r.id)) [
    | inl q ↦
        rw q
          (subst (λ (x : Notification). R x (f x)) (sym (h.0 ((nat_beq_iff n.id r.id).0 q))) step)
    | inr q ↦ rw q (same n)
  ],
  update_row-Pointwise R f r rows same step h.1,
)

pub Pointwise-same :
    (R : Notification → Notification → Type 0) (rows : List Notification)
    → ((n : Notification) → R n n)
    → Pointwise R rows rows
Pointwise-same R [] same = tt
Pointwise-same R (r ∷ rows) same = (same r, Pointwise-same R rows same)

pub Pointwise-map :
    (R S : Notification → Notification → Type 0) (xs ys : List Notification)
    → ((a b : Notification) → R a b → S a b)
    → Pointwise R xs ys
    → Pointwise S xs ys
Pointwise-map R S [] [] f h = tt
Pointwise-map R S (x ∷ xs) (y ∷ ys) f h = (f x y h.0, Pointwise-map R S xs ys f h.1)
Pointwise-map R S [] (y ∷ ys) f h = absurd h
Pointwise-map R S (x ∷ xs) [] f h = absurd h

Pointwise-trans :
    (R : Notification → Notification → Type 0) (xs ys zs : List Notification)
    → ((a b c : Notification) → R a b → R b c → R a c)
    → Pointwise R xs ys
    → Pointwise R ys zs
    → Pointwise R xs zs
Pointwise-trans R [] [] [] t h k = tt
Pointwise-trans R (x ∷ xs) (y ∷ ys) (z ∷ zs) t h k =
    (t x y z h.0 k.0, Pointwise-trans R xs ys zs t h.1 k.1)
Pointwise-trans R [] [] (z ∷ zs) t h k = absurd k
Pointwise-trans R [] (y ∷ ys) zs t h k = absurd h
Pointwise-trans R (x ∷ xs) [] zs t h k = absurd h
Pointwise-trans R (x ∷ xs) (y ∷ ys) [] t h k = absurd k

-- A drain relates every row of the outbox to what becomes of it, by any reflexive and transitive
-- relation that holds of each selected row and what its effect makes of it.
pub drain_rows-Pointwise :
    (p : Platform) (session : Session) (policy : ActivationPolicy) (include_held : Bool)
    (R : Notification → Notification → Type 0) (todo : List Notification) (t : Tally)
    (rows : List Notification)
    → ((n : Notification) → R n n)
    → ((a b c : Notification) → R a b → R b c → R a c)
    → All (λ r. R r (row_after p session r.id (effect p session policy include_held r) r)) todo
    → UniqueIds todo
    → All (IsTheRow rows) todo
    → Pointwise R rows (drain_rows p session policy include_held todo t rows).2
unfolding drain_rows next_row
drain_rows-Pointwise p session policy include_held R [] t rows same trans step u h =
    Pointwise-same R rows same
drain_rows-Pointwise p session policy include_held R (r ∷ todo) t rows same trans step u h =
    let e = effect p session policy include_held r in
    let rows' = write p session r e rows in
    let first : Pointwise R rows rows' =
      rw (write-eq-update_row p session r e rows)
        (update_row-Pointwise R (row_after p session r.id e) r rows same step.0 h.0) in
    let kept : All (IsTheRow rows') todo =
      rw (write-eq-update_row p session r e rows)
        (All-update r.id _ rows todo (row_after-id p session r.id e) u.0 h.1) in
    let rest =
      drain_rows-Pointwise p session policy include_held R todo (count_effect e t) rows' same trans
        step.1 u.1 kept in
    elim (Option-cases (stops e)) [
      | inl q ↦ rw (q, drain_rows, next_row) (Pointwise-trans R _ _ _ trans first rest)
      | inr (x, q) ↦ rw (q, drain_rows, next_row) first
    ]
