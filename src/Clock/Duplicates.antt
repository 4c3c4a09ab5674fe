-- ===== src/Clock/Duplicates.antt =====
-- `_dedupe` of backend/backtesting/clock.py: which event each policy keeps for a key, and that no
-- key is left twice.
use option_research_platform.Base.{
  false, none, some, List, [], ◌∷◌, ◌++◌, ◌≡◌, refl, sym, ◌∙◌, ap, subst, if◌then◌else◌, arith,
  Bool-cases, inl, inr,
}
use option_research_platform.Base.Result.{ok, err, ok-injective, >>=-eq-ok, err≢ok, Result-cases}
use option_research_platform.Clock.Events.{ClockEvent, DuplicateEventPolicy, keep_first, keep_last}
use option_research_platform.Clock.Build.{
  EventClockError, same_key, has_key, replace_key, on_duplicate, dedupe_from, dedupe,
}
use mathlib.Core.List.{append-nil, append_assoc}
use option_research_platform.Clock.Keys.{
  has_key-middle, same_key_comm, find_first, find_last, DistinctKeys, or_else, or_else-none,
  DistinctKeys-append, DistinctKeys-replace, find_first-append, find_first-none, find_first-not_has,
  find_first-replace,
}

find_last-eq-or_else :
    (k e : ClockEvent) (rest : List ClockEvent)
    → find_last k (e ∷ rest) ≡ or_else (find_last k rest) (if same_key e k then some e else none)
find_last-eq-or_else k e rest = ground arith

-- Under KEEP_FIRST the entry of a key is the first event with it.
keep_first-find :
    (k : ClockEvent) (seen events out : List ClockEvent)
    → dedupe_from keep_first seen events ≡ ok out
    → find_first k out ≡ or_else (find_first k seen) (find_first k events)
unfolding dedupe_from
keep_first-find k seen [] out h = ground arith
keep_first-find k seen (e ∷ rest) out h = elim (Bool-cases (has_key e seen)) [
  | inl old ↦
      ground (arith, keep_first-find k seen rest out (rw old at h), find_first-none k e seen old)
  | inr new ↦
      ground (
        arith,
        keep_first-find k (seen ++ e ∷ []) rest out (rw new at h),
        find_first-append k e seen,
      )
]

-- Under KEEP_LAST it is the last one.
keep_last-find :
    (k : ClockEvent) (seen events out : List ClockEvent)
    → dedupe_from keep_last seen events ≡ ok out
    → find_first k out ≡ or_else (find_last k events) (find_first k seen)
unfolding dedupe_from
keep_last-find k seen [] out h = ground arith
keep_last-find k seen (e ∷ rest) out h = elim (Bool-cases (has_key e seen)) [
  | inl old ↦ ground (
    arith,
    keep_last-find k (replace_key e seen) rest out (rw old at h),
    find_first-replace k e seen old,
    find_last-eq-or_else k e rest,
  )
  | inr new ↦ ground (
    arith,
    keep_last-find k (seen ++ e ∷ []) rest out (rw new at h),
    find_first-append k e seen,
    find_first-not_has k e seen new,
    find_last-eq-or_else k e rest,
  )
]

on_duplicate-DistinctKeys :
    (p : DuplicateEventPolicy) (e : ClockEvent) (seen out : List ClockEvent)
    → DistinctKeys seen
    → on_duplicate p e seen ≡ ok out
    → DistinctKeys out
on_duplicate-DistinctKeys keep_first e seen out d h = subst DistinctKeys (ok-injective h) d
on_duplicate-DistinctKeys keep_last e seen out d h =
    subst DistinctKeys (ok-injective h) (DistinctKeys-replace seen e d)
on_duplicate-DistinctKeys _ e seen out d h = cc

dedupe_from-DistinctKeys :
    (p : DuplicateEventPolicy) (seen events out : List ClockEvent)
    → DistinctKeys seen
    → dedupe_from p seen events ≡ ok out
    → DistinctKeys out
unfolding dedupe_from
dedupe_from-DistinctKeys p seen [] out d h = subst DistinctKeys (ok-injective h) d
dedupe_from-DistinctKeys p seen (e ∷ rest) out d h = elim (Bool-cases (has_key e seen)) [
  | inl old ↦
      let (seen', made, rest_ok) = >>=-eq-ok (on_duplicate p e seen) _ (rw old at h) in
      dedupe_from-DistinctKeys p seen' rest out (on_duplicate-DistinctKeys p e seen seen' d made)
        rest_ok
  | inr new ↦
      dedupe_from-DistinctKeys p (seen ++ e ∷ []) rest out (DistinctKeys-append seen e d new)
        (rw new at h)
]

-- The two keeping policies never raise.
keep_first_total :
    (seen events : List ClockEvent)
    → (out : List ClockEvent) × (dedupe_from keep_first seen events ≡ ok out)
unfolding dedupe_from
keep_first_total seen [] = (seen, refl)
keep_first_total seen (e ∷ rest) = elim (Bool-cases (has_key e seen)) [
  | inl old ↦ let (out, h) = keep_first_total seen rest in (out, rw old h)
  | inr new ↦ let (out, h) = keep_first_total (seen ++ e ∷ []) rest in (out, rw new h)
]

keep_last_total :
    (seen events : List ClockEvent)
    → (out : List ClockEvent) × (dedupe_from keep_last seen events ≡ ok out)
unfolding dedupe_from
keep_last_total seen [] = (seen, refl)
keep_last_total seen (e ∷ rest) = elim (Bool-cases (has_key e seen)) [
  | inl old ↦ let (out, h) = keep_last_total (replace_key e seen) rest in (out, rw old h)
  | inr new ↦ let (out, h) = keep_last_total (seen ++ e ∷ []) rest in (out, rw new h)
]

dedupe_keep_first :
    (events : List ClockEvent)
    → (out : List ClockEvent) × (dedupe keep_first events ≡ ok out)
      × DistinctKeys out
      × ((k : ClockEvent) → find_first k out ≡ find_first k events)
unfolding dedupe
dedupe_keep_first events =
    let (out, h) = keep_first_total [] events in
    (
      out,
      h,
      dedupe_from-DistinctKeys keep_first [] events out tt h,
      λ k. keep_first-find k [] events out h,
    )

dedupe_keep_last :
    (events : List ClockEvent)
    → (out : List ClockEvent) × (dedupe keep_last events ≡ ok out)
      × DistinctKeys out
      × ((k : ClockEvent) → find_first k out ≡ find_last k events)
unfolding dedupe
dedupe_keep_last events =
    let (out, h) = keep_last_total [] events in
    (
      out,
      h,
      dedupe_from-DistinctKeys keep_last [] events out tt h,
      λ k. keep_last-find k [] events out h ∙ or_else-none (find_last k events),
    )

-- KEEP_FIRST and KEEP_LAST never raise. What each returns has no key twice, and for every key it
-- holds the first or the last of the given events with that key, and none where no event has it.
pub dedupe_keeps :
    (events : List ClockEvent)
    → ((out : List ClockEvent) × (dedupe keep_first events ≡ ok out)
        × DistinctKeys out
        × ((k : ClockEvent) → find_first k out ≡ find_first k events))
      × ((out : List ClockEvent) × (dedupe keep_last events ≡ ok out)
          × DistinctKeys out
          × ((k : ClockEvent) → find_first k out ≡ find_last k events))
dedupe_keeps events = (dedupe_keep_first events, dedupe_keep_last events)

raise-eq-append :
    (seen events out : List ClockEvent)
    → dedupe_from DuplicateEventPolicy.raise seen events ≡ ok out
    → out ≡ seen ++ events
unfolding dedupe_from
raise-eq-append seen [] out h = rw append-nil (sym (ok-injective h))
raise-eq-append seen (e ∷ rest) out h = elim (Bool-cases (has_key e seen)) [
  | inl old ↦ absurd (err≢ok (rw old at h))
  | inr new ↦
      raise-eq-append (seen ++ e ∷ []) rest out (rw new at h) ∙ append_assoc seen (e ∷ []) rest
]

DistinctKeys-split :
    (xs : List ClockEvent) (e : ClockEvent) (ys : List ClockEvent)
    → DistinctKeys (xs ++ e ∷ ys)
    → has_key e xs ≡ false
DistinctKeys-split [] e ys h = refl
DistinctKeys-split (x ∷ xs) e ys h =
    ground (arith, DistinctKeys-split xs e ys h.1, has_key-middle x e xs ys, same_key_comm x e, h.0)

raise_accepts :
    (seen events : List ClockEvent)
    → DistinctKeys (seen ++ events)
    → dedupe_from DuplicateEventPolicy.raise seen events ≡ ok (seen ++ events)
unfolding dedupe_from
raise_accepts seen [] d = rw append-nil
raise_accepts seen (e ∷ rest) d =
    let joined : (seen ++ e ∷ []) ++ rest ≡ seen ++ e ∷ rest = append_assoc seen (e ∷ []) rest in
    rw (DistinctKeys-split seen e rest d) (
      raise_accepts (seen ++ e ∷ []) rest (subst DistinctKeys (sym joined) d)
      ∙ ap (λ l. ok l) joined)

-- The strict policy returns the events as they are when no key occurs twice among them, and
-- raises otherwise.
pub dedupe_raise :
    (events : List ClockEvent)
    → (DistinctKeys events → dedupe DuplicateEventPolicy.raise events ≡ ok events)
      × (¬ DistinctKeys events
          → (x : EventClockError) × (dedupe DuplicateEventPolicy.raise events ≡ err x))
unfolding dedupe
dedupe_raise events = (
  raise_accepts [] events,
  λ repeated. elim (Result-cases (dedupe_from DuplicateEventPolicy.raise [] events)) [
    | inl (out, h) ↦ absurd (
        repeated (
          subst DistinctKeys (raise-eq-append [] events out h)
            (dedupe_from-DistinctKeys DuplicateEventPolicy.raise [] events out tt h)))
    | inr (x, h) ↦ (x, h)
  ],
)
