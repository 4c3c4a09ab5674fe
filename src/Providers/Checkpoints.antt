-- ===== src/Providers/Checkpoints.antt =====
-- `ProviderOperationsService.checkpoint` (backend/data/provider_operations.py): replayed work does not
-- change what a provider has answered.
use text.Mathlib.Text.{◌==◌ as str_eq}
use option_research_platform.Base.{
  ◌≡◌, refl, ap, ◌∙◌, sym, inl, inr, Bool, true, false, not, String, Option, none, some, List, [],
  ◌∷◌, arith, if◌then◌else◌, Option-cases, Bool-cases, eq_iff,
}
use option_research_platform.Base.Result.{err}
use option_research_platform.Base.Dict.{get, get-put, pair_eq}
use option_research_platform.Providers.Jobs.{
  ProviderCheckpoint, ProviderOperationsService, response_changed, checkpoint, write_checkpoint,
}

abbrev pub key_of : ProviderCheckpoint → String × String
key_of value = (value.job_id, value.checkpoint_id)

module _ {P : Type 0} where
  -- Calls in a row, of which some may raise.
  pub replay : List ProviderCheckpoint → ProviderOperationsService P → ProviderOperationsService P
  unfolding checkpoint
  replay [] s = s
  replay (value ∷ rest) s = replay rest (checkpoint value s).1

abbrev pub checksum_of : Option ProviderCheckpoint → Option String
checksum_of none = none
checksum_of (some c) = some c.response_checksum

-- The response that is stored under a key.
abbrev pub response : {P : Type 0} → String × String → ProviderOperationsService P → Option String
response key s = checksum_of (get key s.checkpoints)

-- The first response for a key among checkpoints.
abbrev pub first_response : String × String → List ProviderCheckpoint → Option String
first_response key [] = none
first_response key (value ∷ rest) =
    if pair_eq.beq (key_of value) key then some value.response_checksum else first_response key rest

abbrev pub or_else : Option String → Option String → Option String
or_else (some a) b = some a
or_else none b = b

or_else-none : (a : Option String) → a ≡ or_else a none
or_else-none none = refl
or_else-none (some a) = refl

or_else_if :
    (b : Bool) (stored : Option String) (value : String) (rest : Option String)
    → or_else (or_else stored (if b then some value else none)) rest
      ≡ or_else stored (if b then some value else rest)
or_else_if true none value rest = refl
or_else_if false none value rest = refl
or_else_if b (some a) value rest = refl

fresh :
    (b : Bool) (stored : Option String) (value : String)
    → (b ≡ true → stored ≡ none)
    → (if b then some value else stored) ≡ or_else stored (if b then some value else none)
fresh true stored value h = rw (h refl) refl
fresh false stored value h = or_else-none stored

again :
    (b : Bool) (stored : Option String) (value : String)
    → (b ≡ true → stored ≡ some value)
    → (if b then some value else stored) ≡ or_else stored (if b then some value else none)
again true stored value h = rw (h refl) refl
again false stored value h = or_else-none stored

refused :
    (b : Bool) (stored : Option String) (value old : String)
    → (b ≡ true → stored ≡ some old)
    → stored ≡ or_else stored (if b then some value else none)
refused true stored value old h = rw (h refl) refl
refused false stored value old h = or_else-none stored

module _ {P : Type 0} where
  checkpoint-new :
      (value : ProviderCheckpoint) (s : ProviderOperationsService P)
      → get (key_of value) s.checkpoints ≡ none
      → checkpoint value s ≡ write_checkpoint value s
  unfolding checkpoint
  checkpoint-new value s h = rw (h, checkpoint) refl

  checkpoint-old :
      (value existing : ProviderCheckpoint) (s : ProviderOperationsService P)
      → get (key_of value) s.checkpoints ≡ some existing
      → checkpoint value s ≡ (
          if not (str_eq existing.response_checksum value.response_checksum)
          then (err response_changed, s)
          else write_checkpoint value s)
  unfolding checkpoint
  checkpoint-old value existing s h = rw (h, checkpoint) refl

  response-write_checkpoint :
      (key : String × String) (value : ProviderCheckpoint) (s : ProviderOperationsService P)
      → response key (write_checkpoint value s).1
        ≡ (if pair_eq.beq (key_of value) key then some value.response_checksum else response key s)
  response-write_checkpoint key value s =
      ap checksum_of (get-put key (key_of value) value s.checkpoints) ∙ ground arith

  response-checkpoint :
      (key : String × String) (value : ProviderCheckpoint) (s : ProviderOperationsService P)
      → response key (checkpoint value s).1
        ≡ or_else
            (response key s)
            (if pair_eq.beq (key_of value) key then some value.response_checksum else none)
  response-checkpoint key value s = elim (Option-cases (get (key_of value) s.checkpoints)) [
    | inl new ↦ rw (checkpoint-new value s new) (
        response-write_checkpoint key value s
        ∙ fresh (pair_eq.beq (key_of value) key) (response key s) value.response_checksum (λ e.
          ap checksum_of
            (ap (λ k. get k s.checkpoints) (sym ((pair_eq.beq_iff (key_of value) key).0 e)) ∙ new)))
    | inr (existing, old) ↦
        rw (checkpoint-old value existing s old)
          (elim (Bool-cases (str_eq existing.response_checksum value.response_checksum)) [
            | inl same ↦ rw same (
                response-write_checkpoint key value s
                ∙ again (pair_eq.beq (key_of value) key) (response key s) value.response_checksum
                    (λ e.
                      ap checksum_of (
                        ap (λ k. get k s.checkpoints)
                          (sym ((pair_eq.beq_iff (key_of value) key).0 e))
                        ∙ old)
                      ∙ ap some
                          ((eq_iff existing.response_checksum value.response_checksum).0 same)))
            | inr other ↦ rw other (
                refused (pair_eq.beq (key_of value) key) (response key s) value.response_checksum
                  existing.response_checksum
                  (λ e. ap checksum_of (
                    ap (λ k. get k s.checkpoints) (sym ((pair_eq.beq_iff (key_of value) key).0 e))
                    ∙ old)))
          ])
  ]

  -- Whatever checkpoints are replayed, in whatever order, and whichever of the calls raise: the
  -- response stored under a key is the one that was stored before, or else that of the first of them with
  -- the key.
  pub response-replay :
      (values : List ProviderCheckpoint) (s : ProviderOperationsService P) (key : String × String)
      → response key (replay values s) ≡ or_else (response key s) (first_response key values)
  unfolding replay
  response-replay [] s key = or_else-none (response key s)
  response-replay (value ∷ rest) s key =
      response-replay rest (checkpoint value s).1 key
      ∙ rw (response-checkpoint key value s) (
          or_else_if (pair_eq.beq (key_of value) key) (response key s) value.response_checksum
            (first_response key rest))
