-- ===== src/Tests/Generated.antt =====
-- The theorem on the fuzzer's input, where the source is a list of bytes.
use marble.Prelude.{
  ℕ, ◌+◌, ◌≤◌, ◌≡◌, arith, Option, none, some, [], ◌∷◌, ok, ◌==◌, length, take, drop,
  length-take_le, leb→le, subst, ap, Bool, leb, if◌then◌else◌, Bool-cases, inl, inr,
}
use marble.Prelude.Bytes.{Bytes}
use marble.Prelude.Int.{pos}
use marble.Config.{validate}
use marble.FuzzModel.{Op}
use marble.FuzzModel.Generate.{unwrap_or, Unstructured, arbitrary_config, arbitrary_op}
use marble.FuzzModel.Generated.{IsGenerated, arbitrary_op-IsGenerated}

next_in_range : ℕ → ℕ → Bytes → Option ℕ × Bytes
next_in_range low high [] = (none, [])
next_in_range low high (b ∷ bs) = (if leb (low + b) high then some (low + b) else some low, bs)

next_bool : Bytes → Option Bool × Bytes
next_bool [] = (none, [])
next_bool (b ∷ bs) = (some (b == 1), bs)

next_bytes : ℕ → Bytes → Option Bytes × Bytes
next_bytes n bs = (if leb n (length bs) then some (take n bs) else none, drop n bs)

next_in_range_lem :
    (low high n : ℕ) (bs : Bytes)
    → low ≤ high
    → (next_in_range low high bs).0 ≡ some n
    → (low ≤ n) × (n ≤ high)
unfolding next_in_range
next_in_range_lem low high n [] le e = absurd (cc)
next_in_range_lem low high n (b ∷ bs) le e = elim (Bool-cases (leb (low + b) high)) [
  | inl fits ↦
      let same : low + b ≡ n = ap (unwrap_or 0) (rw fits at e) in ground (arith, same, fits)
  | inr out ↦ let same : low ≡ n = ap (unwrap_or 0) (rw out at e) in omega (arith, same, le)
]

length-next_bytes : (n : ℕ) (value bs : Bytes) → (next_bytes n bs).0 ≡ some value → length value ≡ n
unfolding next_bytes
length-next_bytes n value bs e = elim (Bool-cases (leb n (length bs))) [
  | inl fits ↦
      let same : take n bs ≡ value = ap (unwrap_or []) (rw fits at e) in
      subst (λ (v : Bytes). length v ≡ n) same (length-take_le n bs (leb→le n (length bs) fits))
  | inr out ↦ absurd (cc (rw out at e))
]

abbrev source : Unstructured Bytes
source = record {
  int_in_range = next_in_range;
  bytes = next_bytes;
  arbitrary_bool = next_bool;
  arbitrary_i32 = λ bs. (some (pos 3), bs);
  int_in_range_lem = next_in_range_lem;
  length-bytes = length-next_bytes;
}

arbitrary_op-IsGenerated_example :
    (validate (arbitrary_config source [] (7 ∷ 8 ∷ [])).0 ≡ ok tt)
    × ((op : Op) × ((arbitrary_op source (1 ∷ 3 ∷ 4 ∷ 2 ∷ 9 ∷ 9 ∷ [])).0 ≡ ok op)
        × IsGenerated source (arbitrary_config source [] (7 ∷ 8 ∷ [])).0 op)
arbitrary_op-IsGenerated_example =
    arbitrary_op-IsGenerated source [] (7 ∷ 8 ∷ []) (1 ∷ 3 ∷ 4 ∷ 2 ∷ 9 ∷ 9 ∷ [])
