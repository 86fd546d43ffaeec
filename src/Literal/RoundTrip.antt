-- ===== src/Literal/RoundTrip.antt =====
-- src/compiler/codegen.cpp and src/runtime/literal.cpp: the machine decodes what the compiler meant.
pub mod Records
mod Items
mod FieldRecords
mod Fields
use vxx.Prelude.{ℕ, zero, suc, ◌≡◌, Option, some, List, [], ◌∷◌}
use vxx.Prelude.Int.{ℤ, pos}
use vxx.Prelude.Bytes.{Bytes}
use vxx.Literal.Types.{IrValue}
use vxx.Literal.Encode.{encoders}
use vxx.Literal.Evaluate.{evaluators}
use vxx.Literal.RoundTrip.Records.{ReadsAs, read_list, read_map}
use vxx.Literal.RoundTrip.Items.{encode_items-ReadsAs}
use vxx.Literal.RoundTrip.Fields.{encode_entries-ReadsAs}

-- If `std::stoi` reads 0 and 1, then from any text that the compiler writes for a list or for a map, whatever is nested in it
-- and whatever bytes its strings have, the machine decodes the value that the literal means, or fails as its
-- numbers do; more fuel than the text has bytes is enough.
pub encoders-ReadsAs :
    (stoi : Bytes → Option ℤ) (stod : Bytes → Option ℕ) (values : List IrValue) (fuel : ℕ)
    (ids : List ℕ)
    → stoi (49 ∷ []) ≡ some (pos 1)
    → stoi (48 ∷ []) ≡ some (pos 0)
    → ReadsAs
        (read_list stoi stod)
        ((encoders values fuel).list ids)
        ((evaluators stoi stod values fuel).list ids)
      × ReadsAs
          (read_map stoi stod)
          ((encoders values fuel).map ids)
          ((evaluators stoi stod values fuel).map ids)
unfolding encoders evaluators
encoders-ReadsAs stoi stod values zero ids one nought = (tt, tt)
encoders-ReadsAs stoi stod values (suc fuel) ids one nought =
    let lists = λ (more : List ℕ). (encoders-ReadsAs stoi stod values fuel more one nought).0 in
    let maps = λ (more : List ℕ). (encoders-ReadsAs stoi stod values fuel more one nought).1 in
    (
      encode_items-ReadsAs stoi stod one nought values (encoders values fuel)
          (evaluators stoi stod values fuel) lists maps ids,
      encode_entries-ReadsAs stoi stod one nought values (encoders values fuel)
          (evaluators stoi stod values fuel) lists maps ids,
    )
