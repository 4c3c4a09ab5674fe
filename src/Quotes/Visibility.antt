-- ===== src/Quotes/Visibility.antt =====
-- Which row each mode of `select` chooses (backend/backtesting/quote_selection.py): the default
-- mode never looks ahead.
use text.Mathlib.Text.{◌==◌ as str_eq}
use option_research_platform.Base.{
  Bool, true, false, String, Option, none, some, List, [], ◌∷◌, ◌≡◌, refl, All, Among, All-weaken,
  inl, inr, true≢false, not_both, Bool-cases,
}
use option_research_platform.Base.Int.{ℤ}
use option_research_platform.Base.Sort.{
  sorted, IsSorted, sorted-IsSorted, All-of-sorted, Among-of-sorted,
}
use option_research_platform.Base.Time.{
  time_order, time_le_refl, Datetime, ensure_aware, time_le, time_eq,
}
use option_research_platform.Quotes.{
  Quote, QuoteSelectionPolicy, row_time, by_time, first_where, nearest_prior, choose, conclude,
  delayed, select_quote,
}

-- The rows that a mode may choose from, and the row that it prefers among them.
abbrev pub Chosen : (Quote → Bool) → (Quote → Quote → Bool) → List Quote → Option Quote → Type 0
Chosen test beats quotes none = All (λ q. test q ≡ false) quotes
Chosen test beats quotes (some row) =
    Among row quotes × (test row ≡ true) × All (λ q. test q ≡ true → beats row q ≡ true) quotes

-- The latest row that is not later than `ts`.
abbrev pub not_later : Datetime → Quote → Bool
not_later ts q = time_le (row_time q) ts

abbrev pub later_or_same : Quote → Quote → Bool
later_or_same row q = time_le (row_time q) (row_time row)

module _ (ts : Datetime) where
  -- Behind a row that is later than `ts` every row is.
  rest_later :
      (x : Quote) (rest : List Quote)
      → not_later ts x ≡ false
      → All (λ q. time_le (row_time x) (row_time q) ≡ true) rest
      → All (λ q. not_later ts q ≡ false) rest
  rest_later x [] later h = tt
  rest_later x (q ∷ rest) later h = (
    not_both (time_order.trans (row_time x) (row_time q) ts h.0) later,
    rest_later x rest later h.1,
  )

  Chosen-extend :
      (cur x : Quote) (rest : List Quote) (o : Option Quote)
      → not_later ts x ≡ true
      → time_le (row_time cur) (row_time x) ≡ true
      → Chosen (not_later ts) later_or_same (x ∷ rest) o
      → Chosen (not_later ts) later_or_same (cur ∷ x ∷ rest) o
  Chosen-extend cur x rest none t c h = absurd (true≢false t h.0)
  Chosen-extend cur x rest (some row) t c h = (
    inr h.0,
    h.1,
    (λ _. time_order.trans (row_time cur) (row_time x) (row_time row) c (h.2.0 t), h.2),
  )

  nearest_prior-from :
      (cur : Quote) (rows : List Quote)
      → not_later ts cur ≡ true
      → IsSorted by_time (cur ∷ rows)
      → Chosen (not_later ts) later_or_same (cur ∷ rows) (nearest_prior ts (some cur) rows)
  nearest_prior-from cur [] t h = (inl refl, t, (λ _. time_le_refl (row_time cur), tt))
  nearest_prior-from cur (x ∷ rest) t h = elim (Bool-cases (not_later ts x)) [
    | inl early ↦
        rw early (Chosen-extend cur x rest _ early h.0.0 (nearest_prior-from x rest early h.1))
    | inr later ↦ rw later (
      inl refl,
      t,
      (
        λ _. time_le_refl (row_time cur),
        All-weaken (λ q. not_later ts q ≡ false)
            (λ q. not_later ts q ≡ true → later_or_same cur q ≡ true) (x ∷ rest)
            (λ q no_q yes_q. absurd (true≢false yes_q no_q)) (later, rest_later x rest later h.1.0),
      ),
    )
  ]

  nearest_prior-Chosen :
      (rows : List Quote)
      → IsSorted by_time rows
      → Chosen (not_later ts) later_or_same rows (nearest_prior ts none rows)
  nearest_prior-Chosen [] h = tt
  nearest_prior-Chosen (x ∷ rest) h = elim (Bool-cases (not_later ts x)) [
    | inl early ↦ rw early (nearest_prior-from x rest early h)
    | inr later ↦ rw later (later, rest_later x rest later h.0)
  ]

Chosen-of-sorted :
    (test : Quote → Bool) (beats : Quote → Quote → Bool) (quotes : List Quote) (o : Option Quote)
    → Chosen test beats (sorted by_time quotes) o
    → Chosen test beats quotes o
Chosen-of-sorted test beats quotes none h = All-of-sorted by_time (λ q. test q ≡ false) quotes h
Chosen-of-sorted test beats quotes (some row) h = (
  Among-of-sorted by_time row quotes h.0,
  h.1,
  All-of-sorted by_time (λ q. test q ≡ true → beats row q ≡ true) quotes h.2,
)

-- The first row that passes a test is the earliest one that does.
abbrev pub earlier_or_same : Quote → Quote → Bool
earlier_or_same row q = time_le (row_time row) (row_time q)

Chosen-skip :
    (test : Quote → Bool) (x : Quote) (rest : List Quote) (o : Option Quote)
    → test x ≡ false
    → Chosen test earlier_or_same rest o
    → Chosen test earlier_or_same (x ∷ rest) o
Chosen-skip test x rest none t h = (t, h)
Chosen-skip test x rest (some row) t h = (inr h.0, h.1, (λ yes_x. absurd (true≢false yes_x t), h.2))

first_where-Chosen :
    (test : Quote → Bool) (rows : List Quote)
    → IsSorted by_time rows
    → Chosen test earlier_or_same rows (first_where test rows)
first_where-Chosen test [] h = tt
first_where-Chosen test (x ∷ rest) h = elim (Bool-cases (test x)) [
  | inl found ↦ rw found (
    inl refl,
    found,
    (
      λ _. time_le_refl (row_time x),
      All-weaken (λ q. time_le (row_time x) (row_time q) ≡ true) _ rest (λ q e _. e) h.0,
    ),
  )
  | inr skip ↦ rw skip (Chosen-skip test x rest _ skip (first_where-Chosen test rest h.1))
]

choose_prior :
    (mode : String) (ts delayed_ts : Datetime) (quotes : List Quote)
    → str_eq mode "exact" ≡ false
    → str_eq mode "next_after_delay" ≡ false
    → Chosen (not_later ts) later_or_same quotes (choose mode ts delayed_ts quotes)
unfolding choose
choose_prior mode ts delayed_ts quotes a b =
    Chosen-of-sorted (not_later ts) later_or_same quotes _
      (rw (a, b) (nearest_prior-Chosen ts (sorted by_time quotes) (sorted-IsSorted by_time quotes)))

selected-no_fallback :
    (stale_after : ℤ) (ts delayed_ts : Datetime) (policy : QuoteSelectionPolicy)
    (found : Option Quote)
    → policy.theoretical_fallback_enabled ≡ false
    → (conclude stale_after ts delayed_ts policy found).selected_quote ≡ found
unfolding conclude
selected-no_fallback stale_after ts delayed_ts policy none h = rw h
selected-no_fallback stale_after ts delayed_ts policy (some row) h = refl

-- Without the theoretical fallback, in every mode but "exact" and "next_after_delay", the quote
-- that `select` reports is one of the given ones, is not later than the request, and no given
-- quote that is not later than the request is later than it; it reports none only when every
-- quote is later than the request.
pub select_never_looks_ahead :
    (stale_after : ℤ) (request : Datetime) (quotes : List Quote) (policy : QuoteSelectionPolicy)
    (delay : ℤ)
    → str_eq policy.mode "exact" ≡ false
    → str_eq policy.mode "next_after_delay" ≡ false
    → policy.theoretical_fallback_enabled ≡ false
    → Chosen
        (not_later (ensure_aware request))
        later_or_same
        quotes
        (select_quote stale_after request quotes policy delay).selected_quote
unfolding select_quote
select_never_looks_ahead stale_after request quotes policy delay a b off =
    rw (selected-no_fallback stale_after (ensure_aware request) _ policy _ off) (
      choose_prior policy.mode (ensure_aware request) (delayed (ensure_aware request) delay) quotes
        a b)

choose_after_delay :
    (ts delayed_ts : Datetime) (quotes : List Quote)
    → Chosen
        (λ q. time_le delayed_ts (row_time q))
        earlier_or_same
        quotes
        (choose "next_after_delay" ts delayed_ts quotes)
unfolding choose
choose_after_delay ts delayed_ts quotes = Chosen-of-sorted _ earlier_or_same quotes _ (
    first_where-Chosen (λ q. time_le delayed_ts (row_time q)) (sorted by_time quotes)
      (sorted-IsSorted by_time quotes))

choose_exact :
    (ts delayed_ts : Datetime) (quotes : List Quote)
    → Chosen
        (λ q. time_eq (row_time q) ts)
        earlier_or_same
        quotes
        (choose "exact" ts delayed_ts quotes)
unfolding choose
choose_exact ts delayed_ts quotes = Chosen-of-sorted _ earlier_or_same quotes _ (
    first_where-Chosen (λ q. time_eq (row_time q) ts) (sorted by_time quotes)
      (sorted-IsSorted by_time quotes))

-- In the mode "next_after_delay" the row that is chosen is one of the quotes, is not earlier than
-- the delayed request, and no quote that is not earlier than it comes before that row; no row is
-- chosen exactly when every quote is earlier than the delayed request. In the mode "exact" the row
-- that is chosen is one of the quotes and has the time of the request; no row is chosen exactly
-- when no quote has it.
pub choose_by_time :
    (ts delayed_ts : Datetime) (quotes : List Quote)
    → Chosen
        (λ q. time_le delayed_ts (row_time q))
        earlier_or_same
        quotes
        (choose "next_after_delay" ts delayed_ts quotes)
      × Chosen
          (λ q. time_eq (row_time q) ts)
          earlier_or_same
          quotes
          (choose "exact" ts delayed_ts quotes)
choose_by_time ts delayed_ts quotes =
    (choose_after_delay ts delayed_ts quotes, choose_exact ts delayed_ts quotes)
