-- ===== src/Providers/AlertLog.antt =====
-- `AlertService.emit` (backend/data/provider_runtime.py): an open alert counts how often it is seen.
use text.Mathlib.Text.{◌==◌ as str_eq}
use option_research_platform.Base.{
  ◌+◌, ◌≡◌, ◌⊎◌, map, Among, refl, ap, ◌∙◌, sym, inl, inr, true, false, String, some, List, [], ◌∷◌,
  arith, if◌then◌else◌, Bool-cases, All, length, eq_iff,
}
use option_research_platform.Base.Int.{ℤ}
use option_research_platform.Base.Text.{text_order}
use option_research_platform.Base.Dict.{get, put, get-put, get-put_self, string_eq}
use option_research_platform.Providers.Runtime.{
  Alert, Alerts, emit, emitted, seen_again, new_alert, fingerprint_of, max_text,
}

max_text_bounds :
    (a b : String)
    → (text_order.le a (max_text a b) ≡ true) × (text_order.le b (max_text a b) ≡ true)
max_text_bounds a b =
    ground (arith, text_order.total a b, text_order.total a a, text_order.total b b)

max_text_cases : (a b : String) → (max_text a b ≡ a) ⊎ (max_text a b ≡ b)
max_text_cases a b = ground arith

-- The greater of the own severity and one that was seen since is one of them.
reached_again :
    (own new after : String) (later : List String)
    → (after ≡ max_text own new) ⊎ Among after later
    → (after ≡ own) ⊎ Among after (new ∷ later)
reached_again own new after later (inl e) = elim (max_text_cases own new) [
  | inl old ↦ inl (e ∙ old)
  | inr more ↦ inr (inl (e ∙ more))
]
reached_again own new after later (inr among) = inr (inr among)

module _ (digest : String → String) (provider rule : String) where
  -- The rule fires again and again, with a severity and a time.
  pub emit_all : List (String × ℤ) → Alerts → Alerts
  emit_all [] alerts = alerts
  emit_all ((severity, now) ∷ rest) alerts =
      emit_all rest (emit digest provider rule severity now alerts).1

  -- What an alert is after it was seen again.
  pub record SeenAgain (before after : Alert) (seen : List (String × ℤ)) : Type 0 where
    pub counted : after.occurrences ≡ before.occurrences + length seen
    pub first : after.first_seen ≡ before.first_seen
    pub acknowledged : after.acknowledged ≡ before.acknowledged
    pub open_ : after.resolved ≡ false
    pub severest : All (λ e. text_order.le e.0 after.severity ≡ true) seen
    pub raised : text_order.le before.severity after.severity ≡ true
    pub reached : (after.severity ≡ before.severity) ⊎ Among after.severity (map (λ e. e.0) seen)

  abbrev pub fingerprint : String
  fingerprint = fingerprint_of digest provider rule

  emit-again :
      (severity : String) (now : ℤ) (alerts : Alerts) (alert : Alert)
      → get fingerprint alerts ≡ some alert
      → alert.resolved ≡ false
      → (emit digest provider rule severity now alerts).1
        ≡ put fingerprint (seen_again severity now alert) alerts
  unfolding emit
  emit-again severity now alerts alert found unresolved =
      ap
        (λ o.
          put fingerprint
            (emitted o (new_alert fingerprint provider rule severity now) severity now) alerts)
        found
      ∙ rw unresolved refl

  -- An alert that is not resolved and whose rule fires again any number of times: the alert under its
  -- fingerprint counts each of them, is first seen when it was, keeps its acknowledgement, stays
  -- unresolved, and has the greatest severity, in the order of texts, of its own and those that it was
  -- seen with since.
  -- Every other alert stays as it is.
  pub emit_all-SeenAgain :
      (seen : List (String × ℤ)) (alerts : Alerts) (alert : Alert)
      → get fingerprint alerts ≡ some alert
      → alert.resolved ≡ false
      → (after : Alert) × ((other : String)
          → get other (emit_all seen alerts)
            ≡ (if str_eq fingerprint other then some after else get other alerts))
        × SeenAgain alert after seen
  unfolding emit_all
  emit_all-SeenAgain [] alerts alert found unresolved = (
    alert,
    λ other. own other,
    record {
      counted = omega arith;
      first = refl;
      acknowledged = refl;
      open_ = unresolved;
      severest = tt;
      raised = ground (arith, text_order.total alert.severity alert.severity);
      reached = inl refl;
    },
  )
    where
      own :
          (other : String)
          → get other alerts ≡ (if str_eq fingerprint other then some alert else get other alerts)
      own other = elim (Bool-cases (str_eq fingerprint other)) [
        | inl e ↦ rw e (ap (λ k. get k alerts) (sym ((eq_iff fingerprint other).0 e)) ∙ found)
        | inr e ↦ rw e refl
      ]
  emit_all-SeenAgain ((severity, now) ∷ rest) alerts alert found unresolved =
      let again : Alert = seen_again severity now alert in
      let (after, others, g) =
        emit_all-SeenAgain rest (put fingerprint (seen_again severity now alert) alerts)
          (seen_again severity now alert) (get-put_self fingerprint again alerts) unresolved in
      let (old, new) = max_text_bounds alert.severity severity in
      (
        after,
        λ other.
            rw (emit-again severity now alerts alert found unresolved)
              (others other ∙ ground (arith, get-put other fingerprint again alerts)),
        record {
          counted = omega (arith, g.counted);
          first = g.first;
          acknowledged = g.acknowledged;
          open_ = g.open_;
          severest =
              (text_order.trans severity again.severity after.severity new g.raised, g.severest);
          raised = text_order.trans alert.severity again.severity after.severity old g.raised;
          reached =
              reached_again alert.severity severity after.severity (map (λ e. e.0) rest) g.reached;
        },
      )
