-- ===== src/Clock/Keys.antt =====
-- The keys by which `_dedupe` of backend/backtesting/clock.py tells events apart, and lists of
-- events looked at through their keys.
use option_research_platform.Base.{
  true, false, Option, none, some, List, [], ◌∷◌, ◌++◌, ◌≡◌, ◌≢◌, refl, sym, ◌∙◌, if◌then◌else◌,
  ◌&&◌, arith, eq_iff, Bool-cases, inl, inr,
}
use option_research_platform.Base.Int.{ℤ, eqb_ℤ}
use option_research_platform.Base.Time.{ensure_aware, instant}
use option_research_platform.Clock.Events.{event_value, ClockEvent}
use option_research_platform.Clock.Build.{same_key, has_key, replace_key}
use text.Mathlib.Text.{◌==◌ as str_eq}
use text.Mathlib.TextPositions.{eq_refl}

pub eqb_ℤ→eq : (a b : ℤ) → eqb_ℤ a b ≡ true → a ≡ b
eqb_ℤ→eq a b h = ground arith

abbrev pub moment : ClockEvent → ℤ
moment e = instant (ensure_aware e.timestamp)

-- Two events with one key are told apart by no third event.
pub same_key-left : (a b c : ClockEvent) → same_key a b ≡ true → same_key a c ≡ same_key b c
unfolding same_key
same_key-left a b c h =
    let p : moment a ≡ moment b = eqb_ℤ→eq (moment a) (moment b) (ground arith) in
    let q : event_value a.event_type ≡ event_value b.event_type =
      (eq_iff (event_value a.event_type) (event_value b.event_type)).0 (ground arith) in
    let r : a.sequence_hint ≡ b.sequence_hint = eqb_ℤ→eq _ _ (ground arith) in
    λ i.
      eqb_ℤ (p i) (moment c)
      && (str_eq (q i) (event_value c.event_type) && eqb_ℤ (r i) c.sequence_hint)

pub same_key_refl : (a : ClockEvent) → same_key a a ≡ true
unfolding same_key
same_key_refl a = rw (eq_refl (event_value a.event_type)) (ground arith)

pub same_key_comm : (a b : ClockEvent) → same_key a b ≡ same_key b a
same_key_comm a b = elim (Bool-cases (same_key a b)) [
  | inl h ↦ rw h (sym (same_key_refl a) ∙ same_key-left a b a h)
  | inr h ↦ elim (Bool-cases (same_key b a)) [
    | inl k ↦ sym (same_key-left b a b k) ∙ (same_key_refl b ∙ sym k)
    | inr k ↦ h ∙ sym k
  ]
]

-- The first, and the last, event of a list with the key of `k`.
abbrev pub find_first : ClockEvent → List ClockEvent → Option ClockEvent
find_first k [] = none
find_first k (x ∷ xs) = if same_key x k then some x else find_first k xs

abbrev pub find_last : ClockEvent → List ClockEvent → Option ClockEvent
find_last k [] = none
find_last k (x ∷ xs) = elim (find_last k xs) [
  | some y ↦ some y
  | none ↦ if same_key x k then some x else none
]

-- No two events of the list have one key.
abbrev pub DistinctKeys : List ClockEvent → Type 0
DistinctKeys [] = Unit
DistinctKeys (x ∷ xs) = (has_key x xs ≡ false) × DistinctKeys xs

abbrev pub or_else : Option ClockEvent → Option ClockEvent → Option ClockEvent
or_else none o = o
or_else (some x) o = some x

pub or_else-none : (o : Option ClockEvent) → or_else o none ≡ o
or_else-none o = ground arith

pub has_key-left :
    (a b : ClockEvent) (xs : List ClockEvent) → same_key a b ≡ true → has_key a xs ≡ has_key b xs
has_key-left a b [] h = refl
has_key-left a b (x ∷ xs) h =
    ground
      (arith, has_key-left a b xs h, same_key-left a b x h, same_key_comm x a, same_key_comm x b)

pub has_key-append :
    (k e : ClockEvent) (xs : List ClockEvent)
    → has_key k (xs ++ e ∷ []) ≡ (if has_key k xs then true else same_key e k)
has_key-append k e [] = ground arith
has_key-append k e (x ∷ xs) = ground (arith, has_key-append k e xs)

pub has_key-replace :
    (k e : ClockEvent) (xs : List ClockEvent) → has_key k (replace_key e xs) ≡ has_key k xs
has_key-replace k e [] = refl
has_key-replace k e (x ∷ xs) = ground (arith, has_key-replace k e xs, same_key-left x e k)

pub DistinctKeys-append :
    (xs : List ClockEvent) (e : ClockEvent)
    → DistinctKeys xs
    → has_key e xs ≡ false
    → DistinctKeys (xs ++ e ∷ [])
DistinctKeys-append [] e h k = (refl, tt)
DistinctKeys-append (x ∷ xs) e h k = (
  rw (has_key-append x e xs) (ground (arith, h.0, same_key_comm x e)),
  DistinctKeys-append xs e h.1 (ground arith),
)

pub DistinctKeys-replace :
    (xs : List ClockEvent) (e : ClockEvent) → DistinctKeys xs → DistinctKeys (replace_key e xs)
DistinctKeys-replace [] e h = tt
DistinctKeys-replace (x ∷ xs) e h = elim (Bool-cases (same_key x e)) [
  | inl s ↦ rw s (sym (has_key-left x e xs s) ∙ h.0, h.1)
  | inr s ↦ rw s (has_key-replace x e xs ∙ h.0, DistinctKeys-replace xs e h.1)
]

pub find_first-append :
    (k e : ClockEvent) (xs : List ClockEvent)
    → find_first k (xs ++ e ∷ [])
      ≡ or_else (find_first k xs) (if same_key e k then some e else none)
find_first-append k e [] = refl
find_first-append k e (x ∷ xs) = ground (arith, find_first-append k e xs)

pub find_first-none :
    (k e : ClockEvent) (xs : List ClockEvent)
    → has_key e xs ≡ true
    → same_key e k ≡ true
    → find_first k xs ≢ none
find_first-none k e [] h s = cc
find_first-none k e (x ∷ xs) h s =
    ground (arith, find_first-none k e xs, same_key_comm x e, same_key-left e x k)

pub find_first-not_has :
    (k e : ClockEvent) (xs : List ClockEvent)
    → has_key e xs ≡ false
    → same_key e k ≡ true
    → find_first k xs ≡ none
find_first-not_has k e [] h s = refl
find_first-not_has k e (x ∷ xs) h s =
    ground
      (arith, find_first-not_has k e xs, same_key_comm x e, same_key_comm x k, same_key-left e k x)

pub find_first-replace :
    (k e : ClockEvent) (xs : List ClockEvent)
    → has_key e xs ≡ true
    → find_first k (replace_key e xs) ≡ (if same_key e k then some e else find_first k xs)
find_first-replace k e [] h = cc
find_first-replace k e (x ∷ xs) h = elim (Bool-cases (same_key x e)) [
  | inl s ↦ rw s (ground (arith, same_key-left x e k s))
  | inr s ↦ rw s (
      ground (
        arith,
        find_first-replace k e xs (rw s at h),
        same_key_comm x e,
        same_key-left e k x,
        same_key_comm x k,
      ))
]

pub has_key-middle :
    (k e : ClockEvent) (xs ys : List ClockEvent)
    → has_key k (xs ++ e ∷ ys) ≡ false
    → same_key e k ≡ false
has_key-middle k e [] ys h = ground arith
has_key-middle k e (x ∷ xs) ys h = ground (arith, has_key-middle k e xs ys)
