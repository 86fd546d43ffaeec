-- ===== src/Literal/RoundTrip/Fields.antt =====
-- src/compiler/codegen.cpp and src/runtime/literal.cpp: the records of a map.
use vxx.Prelude.{ℕ, zero, suc, ◌<◌, ◌≡◌, refl, Option, none, some, List, [], ◌∷◌, get_elem?, arith}
use vxx.Prelude.Int.{ℤ, pos}
use vxx.Prelude.Bytes.{Bytes}
use vxx.Literal.Types.{Entries, no_entries, IrValue, Result, ok, and_then}
use vxx.Literal.Encode.{Encoders, encode_value, value_at, encode_entries, key_text}
use vxx.Literal.Decode.{decode_entries, decoders}
use vxx.Literal.Evaluate.{Evaluators, evaluate_value, evaluate_entries}
use vxx.Literal.RoundTrip.Records.{SplitsAs-nil, ReadsAs, read_list, read_map}
use vxx.Literal.RoundTrip.Items.{encode_value-Item}
use vxx.Literal.RoundTrip.FieldRecords.{
  AfterFields, joined, both, joined-AfterFields, joined-ReadsAs,
}

module _ (stoi : Bytes → Option ℤ) (stod : Bytes → Option ℕ) where
  module _ (one : stoi (49 ∷ []) ≡ some (pos 1)) (nought : stoi (48 ∷ []) ≡ some (pos 0))
      (values : List IrValue) (enc : Encoders) (ev : Evaluators)
      (lists : (ids : List ℕ) → ReadsAs (read_list stoi stod) (enc.list ids) (ev.list ids))
      (maps : (ids : List ℕ) → ReadsAs (read_map stoi stod) (enc.map ids) (ev.map ids)) where
    abbrev pair_text : ℕ → Option IrValue → Option IrValue → Result Bytes → Result Bytes
    pair_text index key value more = and_then (value_at values key) (λ k.
        and_then (value_at values value)
          (λ v. joined stoi stod index (key_text k.opcode k.text) (encode_value enc v) more))

    abbrev pair_value :
        Option IrValue → Option IrValue → (Entries → Result Entries) → Entries → Result Entries
    pair_value key value rest built = and_then (value_at values key) (λ k.
        and_then (value_at values value) (λ v.
          both stoi stod (key_text k.opcode k.text) (evaluate_value stoi stod values ev v) rest
            built))

    next-AfterFields :
        (index : ℕ) (key value : Option IrValue) (more : Result Bytes)
        (rest : Entries → Result Entries)
        → AfterFields stoi stod more rest
        → AfterFields stoi stod (pair_text (suc index) key value more) (pair_value key value rest)
    next-AfterFields index none value more rest after = tt
    next-AfterFields index (some key) none more rest after = tt
    next-AfterFields index (some key) (some value) more rest after =
        joined-AfterFields stoi stod index (key_text key.opcode key.text) (encode_value enc value)
          (evaluate_value stoi stod values ev value) more rest
          (encode_value-Item stoi stod one nought values enc ev lists maps value) after

    encode_entries-AfterFields :
        (index : ℕ) (ids : List ℕ)
        → AfterFields stoi stod
            (encode_entries values enc (suc index) ids)
            (λ built. evaluate_entries stoi stod values ev ids built)
    unfolding encode_entries decode_entries
    encode_entries-AfterFields index [] = ([], SplitsAs-nil, λ fuel enough built. refl)
    encode_entries-AfterFields index (key ∷ []) = tt
    encode_entries-AfterFields index (key ∷ id ∷ ids) =
        next-AfterFields index (get_elem? values key) (get_elem? values id)
          (encode_entries values enc (suc (suc (suc index))) ids)
          (λ built. evaluate_entries stoi stod values ev ids built)
          (encode_entries-AfterFields (suc (suc index)) ids)

    first-ReadsAs :
        (key value : Option IrValue) (more : Result Bytes) (rest : Entries → Result Entries)
        → AfterFields stoi stod more rest
        → ReadsAs
            (read_map stoi stod)
            (pair_text zero key value more)
            (pair_value key value rest no_entries)
    first-ReadsAs none value more rest after = tt
    first-ReadsAs (some key) none more rest after = tt
    first-ReadsAs (some key) (some value) more rest after =
        joined-ReadsAs stoi stod (key_text key.opcode key.text) (encode_value enc value)
          (evaluate_value stoi stod values ev value) more rest
          (encode_value-Item stoi stod one nought values enc ev lists maps value) after

    read_map-nil : (fuel : ℕ) → zero < fuel → read_map stoi stod fuel [] ≡ ok no_entries
    unfolding decoders
    read_map-nil zero enough = absurd (omega arith)
    read_map-nil (suc fuel) enough = refl

    -- The loop over a map writes what its decoder reads.
    pub encode_entries-ReadsAs :
        (ids : List ℕ)
        → ReadsAs
            (read_map stoi stod)
            (encode_entries values enc zero ids)
            (evaluate_entries stoi stod values ev ids no_entries)
    unfolding encode_entries
    encode_entries-ReadsAs [] = λ fuel enough. read_map-nil fuel enough
    encode_entries-ReadsAs (key ∷ []) = tt
    encode_entries-ReadsAs (key ∷ id ∷ ids) =
        first-ReadsAs (get_elem? values key) (get_elem? values id)
          (encode_entries values enc (suc (suc zero)) ids)
          (λ built. evaluate_entries stoi stod values ev ids built)
          (encode_entries-AfterFields (suc zero) ids)
