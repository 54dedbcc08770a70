-- ===== src/Framing/Scan.antt =====
-- The scan of src/grpc/framing.ts ends.
use mathlib.Core.Path.{subst}
use catfee_io.Base.{
  ℕ, suc, zero, ◌+◌, ◌*◌, ◌%◌, ◌/◌, ◌^◌, ◌≤◌, ◌≡◌, Bool, true, false, Option, none, some, List, [],
  ◌∷◌, refl, arith, inl, inr, Bool-cases, length, drop, ◌==◌, ltb,
}
use catfee_io.Base.Results.{Result, ok, err, ◌>>=◌, Result-cases}
use catfee_io.Framing.{
  FrameError, out_of_fuel, read_varint_loop, read_varint, checked_advance, skip_wire_value,
  take_field, scan_field, scan, extract_length_delimited_field,
}

abbrev pub is_out_of_fuel : FrameError → Bool
is_out_of_fuel out_of_fuel = true
is_out_of_fuel _ = false

-- The call ends at `least` or after it, or fails with an error of the source.
abbrev pub Passes {ℓ} : {A : Type ℓ} → (A → ℕ) → ℕ → Result FrameError A → Type 0
Passes end least (ok a) = least ≤ end a
Passes end least (err e) = is_out_of_fuel e ≡ false

read_varint_loop-Passes :
    (bytes : List ℕ) (value shift offset : ℕ)
    → Passes (λ v. v.1) (suc offset) (read_varint_loop bytes value shift offset)
unfolding read_varint_loop
read_varint_loop-Passes [] value shift offset = refl
read_varint_loop-Passes (byte ∷ rest) value shift offset =
    ground (
      arith,
      read_varint_loop-Passes rest (value + byte % 128 * 2 ^ shift) (shift + 7) (offset + 1),
    )

read_varint-Passes :
    (buffer : List ℕ) (start : ℕ) → Passes (λ v. v.1) (suc start) (read_varint buffer start)
unfolding read_varint
read_varint-Passes buffer start = read_varint_loop-Passes (drop start buffer) 0 0 start

skip_wire_value-Passes :
    (buffer : List ℕ) (offset wire_type : ℕ)
    → Passes (λ n. n) offset (skip_wire_value buffer offset wire_type)
unfolding skip_wire_value checked_advance
skip_wire_value-Passes buffer offset wire_type = elim (Result-cases (read_varint buffer offset)) [
  | inl (v, e) ↦
      ground (arith, e, subst (Passes (λ v. v.1) (suc offset)) e (read_varint-Passes buffer offset))
  | inr (x, e) ↦
      ground (arith, e, subst (Passes (λ v. v.1) (suc offset)) e (read_varint-Passes buffer offset))
]

take_field-Passes :
    (message : List ℕ) (target field offset : ℕ) (found : Option (List ℕ))
    → Passes (λ n. n.0) offset (take_field message target field offset found)
unfolding take_field
take_field-Passes message target field offset found =
    elim (Result-cases (read_varint message offset)) [
      | inl (v, e) ↦
          ground
            (arith, e, subst (Passes (λ v. v.1) (suc offset)) e (read_varint-Passes message offset))
      | inr (x, e) ↦
          ground
            (arith, e, subst (Passes (λ v. v.1) (suc offset)) e (read_varint-Passes message offset))
    ]

Passes-weaken {ℓ} :
    {A : Type ℓ} (end : A → ℕ) (m n : ℕ) (r : Result FrameError A)
    → m ≤ n
    → Passes end n r
    → Passes end m r
Passes-weaken end m n (ok a) h p = omega arith
Passes-weaken end m n (err e) h p = p

Passes-pair :
    (n : ℕ) (found : Option (List ℕ)) (r : Result FrameError ℕ)
    → Passes (λ k. k) n r
    → Passes (λ (k : ℕ × Option (List ℕ)). k.0) n (r >>= (λ next. ok (next, found)))
Passes-pair n found (ok a) p = p
Passes-pair n found (err e) p = p

scan_field-Passes :
    (message : List ℕ) (target offset : ℕ) (found : Option (List ℕ))
    → Passes (λ n. n.0) (suc offset) (scan_field message target offset found)
unfolding scan_field
scan_field-Passes message target offset found = elim (Result-cases (read_varint message offset)) [
  | inl (v, e) ↦
      let later : suc offset ≤ v.1 =
        subst (Passes (λ v. v.1) (suc offset)) e (read_varint-Passes message offset) in
      rw e (elim (Bool-cases (v.0 % 8 == 2)) [
        | inl delimited ↦ rw delimited (
            Passes-weaken (λ n. n.0) (suc offset) v.1 _ later
              (take_field-Passes message target (v.0 / 8) v.1 found))
        | inr other ↦ rw other (
            Passes-weaken (λ n. n.0) (suc offset) v.1 _ later
              (Passes-pair v.1 found _ (skip_wire_value-Passes message v.1 (v.0 % 8))))
      ])
  | inr (x, e) ↦
      ground
        (arith, e, subst (Passes (λ v. v.1) (suc offset)) e (read_varint-Passes message offset))
]

scan-Passes :
    (fuel : ℕ) (message : List ℕ) (target offset : ℕ) (found : Option (List ℕ))
    → length message ≤ fuel + offset
    → Passes (λ _. 0) 0 (scan fuel message target offset found)
unfolding scan
scan-Passes zero message target offset found h = ground arith
scan-Passes (suc fuel) message target offset found h =
    elim (Bool-cases (ltb offset (length message))) [
      | inr done ↦ rw done (omega arith)
      | inl more ↦ rw more (elim (Result-cases (scan_field message target offset found)) [
        | inr (x, e) ↦ rw e (
            subst (Passes (λ n. n.0) (suc offset)) e
              (scan_field-Passes message target offset found))
        | inl (v, e) ↦
            let later : suc offset ≤ v.0 =
              subst (Passes (λ n. n.0) (suc offset)) e
                (scan_field-Passes message target offset found) in
            rw e (scan-Passes fuel message target v.0 v.1 (omega arith))
      ])
    ]

-- The scan of any buffer ends: the length of the message is fuel enough for the loop, so that the
-- answer is a field of the message or one of the errors of the source.
pub extract_length_delimited_field-terminates :
    (message : List ℕ) (target : ℕ) (e : FrameError)
    → extract_length_delimited_field message target ≡ err e
    → is_out_of_fuel e ≡ false
unfolding extract_length_delimited_field
extract_length_delimited_field-terminates message target e h =
    let p = scan-Passes (length message) message target 0 none (omega arith) in
    elim (Result-cases (scan (length message) message target 0 none)) [
      | inl (some bytes, k) ↦ absurd (ground arith)
      | inl (none, k) ↦ ground arith
      | inr (x, k) ↦ ground (arith, subst (Passes (λ _. 0) 0) k p)
    ]
