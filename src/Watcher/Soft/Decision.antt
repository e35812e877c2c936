-- ===== src/Watcher/Soft/Decision.antt =====
-- The decision in an output (`StructuralJsonEquiv::extract_decision` of watcher/src/verify/soft.rs)
-- against a description of the map it is found in.
use mathlib.Core.List.{append-nil}
use proof_of_thought.Prelude.{
  ◌≡◌, ◌≢◌, ◌⊎◌, inl, inr, refl, Option, none, some, true, false, arith, List, [], ◌∷◌, ◌++◌,
  Bool-cases, Option-cases, ap, sym, ◌∙◌,
}
use proof_of_thought.Watcher.Types.{Bytes, same_bytes_sound}
use proof_of_thought.Watcher.Fetch.{Ciborium}
use proof_of_thought.Watcher.Soft.{extract_decision, find_decision, decision_key, is_text}

module _ {V : Type 0} (cbor : Ciborium V) where
  -- No key is the text "decision".
  abbrev pub LackDecision : List (V × V) → Type 0
  LackDecision [] = Unit
  LackDecision ((k, v) ∷ entries) =
      (cbor.as_text k ≢ some (100 ∷ 101 ∷ 99 ∷ 105 ∷ 115 ∷ 105 ∷ 111 ∷ 110 ∷ []))
      × LackDecision entries

  -- The output is a map, and this is the value of its first entry under the text "decision".
  pub record HasDecision (output decision : V) : Type 0 where
    pub before : List (V × V)
    pub key : V
    pub after : List (V × V)
    pub entries : cbor.as_map output ≡ some (before ++ (key, decision) ∷ after)
    pub named : cbor.as_text key ≡ some (100 ∷ 101 ∷ 99 ∷ 105 ∷ 115 ∷ 105 ∷ 111 ∷ 110 ∷ [])
    pub first : LackDecision before

  -- The output is no map, or a map without an entry under the text "decision".
  abbrev pub HasNoDecision : V → Type 0
  HasNoDecision output =
      (cbor.as_map output ≡ none)
      ⊎ ((entries : List (V × V)) × (cbor.as_map output ≡ some entries) × LackDecision entries)

  is_text_sound : (o : Option Bytes) → is_text decision_key o ≡ true → o ≡ some decision_key
  is_text_sound none h = absurd (cc)
  is_text_sound (some s) h = ap some (same_bytes_sound s decision_key h)

  is_text_complete : (o : Option Bytes) → o ≢ some decision_key → is_text decision_key o ≡ false
  is_text_complete o h = elim (Bool-cases (is_text decision_key o)) [
    | inl same ↦ absurd (h (is_text_sound o same))
    | inr other ↦ other
  ]

  is_text_differs : (o : Option Bytes) → is_text decision_key o ≡ false → o ≢ some decision_key
  is_text_differs o h e =
      let same : is_text decision_key (some decision_key) ≡ true = refl in absurd (cc)

  find_decision-LackDecision :
      (entries : List (V × V)) → find_decision cbor entries ≡ none → LackDecision entries
  unfolding find_decision
  find_decision-LackDecision [] h = tt
  find_decision-LackDecision ((k, v) ∷ entries) h =
      elim (Bool-cases (is_text decision_key (cbor.as_text k))) [
        | inl same ↦ absurd (ground arith)
        | inr other ↦ (
          is_text_differs (cbor.as_text k) other,
          find_decision-LackDecision entries (rw other at h),
        )
      ]

  LackDecision-find_decision :
      (entries rest : List (V × V))
      → LackDecision entries
      → find_decision cbor (entries ++ rest) ≡ find_decision cbor rest
  unfolding find_decision
  LackDecision-find_decision [] rest h = refl
  LackDecision-find_decision ((k, v) ∷ entries) rest (other, h) =
      rw (is_text_complete (cbor.as_text k) other) (LackDecision-find_decision entries rest h)

  find_decision-split :
      (entries : List (V × V)) (decision : V)
      → find_decision cbor entries ≡ some decision
      → (before : List (V × V)) × (key : V) × (after : List (V × V)) × (entries
          ≡ before ++ (key, decision) ∷ after)
        × (cbor.as_text key ≡ some decision_key)
        × LackDecision before
  unfolding find_decision
  find_decision-split [] decision h = absurd (cc)
  find_decision-split ((k, v) ∷ entries) decision h =
      elim (Bool-cases (is_text decision_key (cbor.as_text k))) [
        | inl same ↦
            let found : v ≡ decision = ground arith in
            ([], k, entries, rw found refl, is_text_sound (cbor.as_text k) same, tt)
        | inr other ↦
            let (before, key, after, split, named, first) =
              find_decision-split entries decision (rw other at h) in
            (
              (k, v) ∷ before,
              key,
              after,
              ap (λ rest. (k, v) ∷ rest) split,
              named,
              (is_text_differs (cbor.as_text k) other, first),
            )
      ]

  pub extract_decision-HasDecision :
      (output decision : V)
      → extract_decision cbor output ≡ some decision
      → HasDecision output decision
  extract_decision-HasDecision output decision h = elim (Option-cases (cbor.as_map output)) [
    | inl missing ↦ absurd (ground arith)
    | inr (entries, map) ↦
        let (before, key, after, split, named, first) =
          find_decision-split entries decision (rw map at h) in
        record {
          before = before;
          key = key;
          after = after;
          entries = map ∙ ap some split;
          named = named;
          first = first;
        }
  ]

  pub HasDecision-extract_decision :
      (output decision : V)
      → HasDecision output decision
      → extract_decision cbor output ≡ some decision
  unfolding find_decision
  HasDecision-extract_decision output decision d =
      rw
        (
          d.entries,
          LackDecision-find_decision d.before ((d.key, decision) ∷ d.after) d.first,
          d.named,
        )
        refl

  pub extract_decision-HasNoDecision :
      (output : V) → extract_decision cbor output ≡ none → HasNoDecision output
  extract_decision-HasNoDecision output h = elim (Option-cases (cbor.as_map output)) [
    | inl missing ↦ inl missing
    | inr (entries, map) ↦ inr (entries, map, find_decision-LackDecision entries (rw map at h))
  ]

  pub HasNoDecision-extract_decision :
      (output : V) → HasNoDecision output → extract_decision cbor output ≡ none
  unfolding find_decision
  HasNoDecision-extract_decision output (inl missing) = rw missing refl
  HasNoDecision-extract_decision output (inr (entries, map, h)) =
      rw map (
        ap (find_decision cbor) (sym (append-nil entries))
        ∙ LackDecision-find_decision entries [] h)
