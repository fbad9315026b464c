-- ===== src/Delivery/Foreseen.antt =====
-- notifications/discord.py: what a preview knows of the stored cutoff and of the pending rows.
use smartwatch_clank.Base.{
  String, ◌≡◌, sym, ap, ◌∙◌, Bool, Option, none, some, List, ◌∷◌, count_if, inl, inr, nat_eq,
  string_eq, option_eq,
}
use smartwatch_clank.Base.Result.{ok, ok_inj, Result-cases}
use smartwatch_clank.Platform.{Platform}
use smartwatch_clank.Store.{Store, Notification}
use smartwatch_clank.Store.Outbox.{pending_notifications, policy_get}
use smartwatch_clank.Delivery.Policy.{
  Verdict, is_held, ActivationPolicy, activation_cutoff_key, load_policy, decide,
}
use smartwatch_clank.Delivery.Discord.{provider_discord}
use smartwatch_clank.Delivery.Preview.{
  is_send, verdicts, Preview, CutoffEffect, cutoff_effect, delivery_preview,
}

some_inj {ℓ} : {A : Type ℓ} (a b : A) → some a ≡ some b → a ≡ b
some_inj a b h = cc

-- the verdicts on a row and on the rest
pub verdicts-split :
    (p : Platform) (policy : ActivationPolicy) (r : Notification) (todo : List Notification)
    (vs : List Verdict)
    → verdicts p policy (r ∷ todo) ≡ ok vs
    → (v : Verdict) × (ws : List Verdict) × (decide p r.discovered_at policy ≡ ok v)
      × (verdicts p policy todo ≡ ok ws)
      × (v ∷ ws ≡ vs)
unfolding verdicts
verdicts-split p policy r todo vs h = elim (Result-cases (decide p r.discovered_at policy)) [
  | inl (x, q) ↦ absurd (cc (rw (q, verdicts) at h))
  | inr (v, q) ↦ elim (Result-cases (verdicts p policy todo)) [
    | inl (x, k) ↦ absurd (cc (rw (q, k, verdicts) at h))
    | inr (ws, k) ↦ (v, ws, q, k, ok_inj _ _ (rw (q, k, verdicts) at h))
  ]
]

-- What an effect of a cutoff says.
pub record Foresees (p : Platform) (rows : List Notification) (raw : Option String)
    (e : CutoffEffect) : Type 0 where
  pub policy : ActivationPolicy
  pub loaded : load_policy p raw ≡ ok policy
  pub given : List Verdict
  pub judged : verdicts p policy rows ≡ ok given
  pub would_send : e.would_send ≡ count_if is_send given
  pub would_hold : e.would_hold ≡ count_if is_held given

pub cutoff_effect-Foresees :
    (p : Platform) (rows : List Notification) (raw : Option String) (e : CutoffEffect)
    → cutoff_effect p rows raw ≡ ok (some e)
    → Foresees p rows raw e
unfolding cutoff_effect
cutoff_effect-Foresees p rows none e h = absurd (cc h)
cutoff_effect-Foresees p rows (some raw) e h = elim (Result-cases (load_policy p (some raw))) [
  | inl (x, q) ↦ absurd (cc (rw (q, cutoff_effect) at h))
  | inr (policy, q) ↦ elim (Result-cases (verdicts p policy rows)) [
    | inl (x, k) ↦ absurd (cc (rw (q, k, cutoff_effect) at h))
    | inr (vs, k) ↦
        let same = some_inj _ e (ok_inj _ _ (rw (q, k, cutoff_effect) at h)) in
        record {
          policy = policy;
          loaded = q;
          given = vs;
          judged = k;
          would_send = ap (λ (x : CutoffEffect). x.would_send) (sym same);
          would_hold = ap (λ (x : CutoffEffect). x.would_hold) (sym same);
        }
  ]
]

pub installed :
    (p : Platform) (s : Store) (proposed : Option String) (webhook : Bool) (preview : Preview)
    → delivery_preview p s proposed webhook ≡ ok preview
    → cutoff_effect p
        (pending_notifications provider_discord s.notifications)
        (policy_get activation_cutoff_key s)
      ≡ ok preview.installed_effect
unfolding delivery_preview
installed p s proposed webhook preview h =
    let rows = pending_notifications provider_discord s.notifications in
    let stored = policy_get activation_cutoff_key s in
    elim (Result-cases (load_policy p stored)) [
      | inl (x, q) ↦ absurd (cc (rw (q, delivery_preview) at h))
      | inr (policy, q) ↦ elim (Result-cases (cutoff_effect p rows stored)) [
        | inl (x, k) ↦ absurd (cc (rw (q, k, delivery_preview) at h))
        | inr (o, k) ↦ elim (Result-cases (cutoff_effect p rows proposed)) [
          | inl (x, l) ↦ absurd (cc (rw (q, k, l, delivery_preview) at h))
          | inr (u, l) ↦
              k
              ∙ ap (λ (x : Preview). ok x.installed_effect)
                  (ok_inj _ preview (rw (q, k, l, delivery_preview) at h))
        ]
      ]
    ]
