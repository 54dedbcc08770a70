-- ===== src/Gateway/Receipts/Storable.antt =====
-- What `summarizeSolidifiedReceipt` of src/repository.ts gives meets the CHECK of
-- src/sql/005_resource_audit.sql.
use catfee_io.Base.{
  ℕ, zero, suc, ◌≤◌, Bool, true, false, [], ◌∷◌, ◌≡◌, inl, inr, refl, arith, Bool-cases, length,
  take,
}
use catfee_io.Base.Strings.{trim_start, trim_end}
use catfee_io.Table.Laws.{All}
use catfee_io.Store.{Text}
use catfee_io.Gateway.Receipts.{
  FieldValue, absent, null_value, other_value, big_value, number_value, string_value,
  ReceiptResponse, fallback_result, is_result_character, replace_others, or_fallback,
  normalized_receipt_result, summarize_solidified_receipt, chosen_result,
}

abbrev AreResultCharacters : Text → Type 0
AreResultCharacters t = All (λ c. is_result_character c ≡ true) t

-- From 1 to 64 characters, as the table's CHECK asks, all of them capitals, digits, "_" or "-".
abbrev pub IsStorable : Text → Type 0
IsStorable t = (1 ≤ length t) × (length t ≤ 64) × AreResultCharacters t

fallback-IsStorable : (success : Bool) → IsStorable (fallback_result success)
fallback-IsStorable true =
    (omega arith, omega arith, (refl, (refl, (refl, (refl, (refl, (refl, (refl, tt))))))))
fallback-IsStorable false =
    (omega arith, omega arith, (refl, (refl, (refl, (refl, (refl, (refl, tt)))))))

replace_others-All : (t : Text) → AreResultCharacters (replace_others t)
unfolding replace_others
replace_others-All [] = tt
replace_others-All (c ∷ cs) = elim (Bool-cases (is_result_character c)) [
  | inl e ↦ rw e (e, replace_others-All cs)
  | inr e ↦ rw e (refl, replace_others-All cs)
]

All-take : (k : ℕ) (t : Text) → AreResultCharacters t → AreResultCharacters (take k t)
All-take zero t v = tt
All-take (suc k) [] v = tt
All-take (suc k) (c ∷ cs) v = (v.0, All-take k cs v.1)

length-take_bound : (k : ℕ) (t : Text) → length (take k t) ≤ k
length-take_bound zero t = omega arith
length-take_bound (suc k) [] = omega arith
length-take_bound (suc k) (c ∷ cs) = omega (arith, length-take_bound k cs)

or_fallback-IsStorable :
    (success : Bool) (t : Text)
    → length t ≤ 64
    → AreResultCharacters t
    → IsStorable (or_fallback success t)
or_fallback-IsStorable success [] h v = fallback-IsStorable success
or_fallback-IsStorable success (c ∷ cs) h v = (omega arith, h, v)

trimmed-IsStorable :
    (to_upper_case : Text → Text) (success : Bool) (trimmed : Text)
    → IsStorable (elim trimmed [
      | [] ↦ fallback_result success
      | c ∷ cs ↦ or_fallback success (take 64 (replace_others (to_upper_case (c ∷ cs))))
    ])
trimmed-IsStorable to_upper_case success [] = fallback-IsStorable success
trimmed-IsStorable to_upper_case success (c ∷ cs) =
    or_fallback-IsStorable success _ (length-take_bound 64 _) (All-take 64 _ (replace_others-All _))

normalized-IsStorable :
    (to_upper_case : Text → Text) (v : FieldValue) (success : Bool)
    → IsStorable (normalized_receipt_result to_upper_case v success)
unfolding normalized_receipt_result
normalized-IsStorable u (string_value t) success =
    trimmed-IsStorable u success (trim_end (trim_start t))
normalized-IsStorable u absent success = fallback-IsStorable success
normalized-IsStorable u null_value success = fallback-IsStorable success
normalized-IsStorable u other_value success = fallback-IsStorable success
normalized-IsStorable u (big_value n) success = fallback-IsStorable success
normalized-IsStorable u (number_value n) success = fallback-IsStorable success

-- Whatever a receipt holds and toUpperCase does, the result that markFinalized stores has from 1 to 64
-- characters, as the CHECK of the table asks, all of them capitals, digits, "_" or "-".
pub summarize_solidified_receipt-IsStorable :
    (to_upper_case : Text → Text) (r : ReceiptResponse) (success : Bool)
    → IsStorable (summarize_solidified_receipt to_upper_case r success).1
unfolding summarize_solidified_receipt
summarize_solidified_receipt-IsStorable to_upper_case r success =
    normalized-IsStorable to_upper_case (chosen_result r.result r.body) success
