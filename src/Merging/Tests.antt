-- ===== src/Merging/Tests.antt =====
-- Two quotes of one contract by two providers, and the merge of them.
use option_research_platform.Base.{◌≡◌, refl, true, false, String, none, some, [], ◌∷◌, map}
use option_research_platform.Base.Int.{ℤ, pos, ◌-ℤ◌, abs_ℤ, max_ℤ, leb_ℤ, eqb_ℤ}
use option_research_platform.Base.Value.{over}
use option_research_platform.Base.Dict.{get, put, string_eq}
use option_research_platform.Merging.Observations.{Values, ContractIdentity, composite, quarantine}
use option_research_platform.Merging.Preview.{
  Observation, Policy, reconcile, divergences_of, merge_all, merge_items,
}
use option_research_platform.Merging.Precedence.{is_merged, Found, reconcile-follows_precedence}

-- Numbers alone, as exact decimals.
abbrev numbers : Values
numbers = record {
  V = ℤ;
  F = ℤ;
  equal = eqb_ℤ;
  number = some;
  minus = ◌-ℤ◌;
  magnitude = abs_ℤ;
  larger = max_ℤ;
  ratio = over;
  at_most = leb_ℤ;
  nothing = pos 0;
  tiny = pos 0;
}

abbrev contract : ContractIdentity ℤ
contract = record {
  underlying = "SPX";
  expiration = "2024-01-19";
  strike = pos 480000000000;
  option_type = "call";
  multiplier = pos 10000000000;
  exercise_style = none;
  settlement_style = none;
  occ_symbol = none;
  adjusted_deliverable = none;
}

abbrev polygon : Observation numbers
polygon = record {
  provider = "polygon";
  identity = contract;
  timestamp = "2024-01-02";
  fields = ("bid", some (pos 100000000)) ∷ ("ask", some (pos 130000000)) ∷ [];
  source_checksum = "p";
  certification_score = none;
  stale = false;
}

abbrev cboe : Observation numbers
cboe = record polygon {
  provider = "cboe";
  fields = ("bid", some (pos 110000000)) ∷ ("ask", none) ∷ [];
  source_checksum = "c";
}

abbrev policy : Policy numbers
policy = record {
  version = "1.0.0";
  provider_precedence = "cboe" ∷ "orats" ∷ "databento" ∷ "polygon" ∷ [];
  absolute_tolerances = ("bid", pos 5000000) ∷ [];
  relative_tolerances = ("bid", pos 2000000) ∷ [];
  critical_fields = "multiplier" ∷ [];
}

abbrev checksum : ContractIdentity ℤ → String
checksum identity = identity.underlying

reconcile-follows_precedence_example :
    let e = reconcile numbers checksum (polygon ∷ cboe ∷ []) policy in
    (is_merged e.action ≡ true)
    × Found numbers policy "bid" (polygon ∷ cboe ∷ []) (e.canonical_fields, e.field_provenance)
unfolding divergences_of get ◌-ℤ◌ over
reconcile-follows_precedence_example =
    reconcile-follows_precedence numbers checksum policy polygon (cboe ∷ []) "bid" refl refl

run-reconcile :
    let e = reconcile numbers checksum (polygon ∷ cboe ∷ []) policy in
    (e.action ≡ composite)
    × (e.canonical_fields ≡ ("bid", pos 110000000) ∷ ("ask", pos 130000000) ∷ [])
    × (e.field_provenance ≡ ("bid", "cboe") ∷ ("ask", "polygon") ∷ [])
    × (map (λ d. d.reason) e.divergences ≡ "values conflict" ∷ [])
unfolding reconcile divergences_of get ◌-ℤ◌ over merge_all merge_items put
run-reconcile = (refl, refl, refl, refl)

-- The bid is critical now.
run-critical :
    let strict = record policy { critical_fields = "bid" ∷ [] } in
    let e = reconcile numbers checksum (polygon ∷ cboe ∷ []) strict in
    (e.action ≡ quarantine) × (e.canonical_fields ≡ [])
unfolding reconcile divergences_of get ◌-ℤ◌ over
run-critical = (refl, refl)
