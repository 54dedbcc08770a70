-- ===== src/Examples/Receipts.antt =====
-- The summary of a receipt, by `summarizeSolidifiedReceipt` of src/repository.ts.
use catfee_io.Base.{◌-◌, ◌≡◌, refl, false, none, some, [], ◌∷◌, if◌then◌else◌}
use catfee_io.Base.Int.{pos, negsuc}
use catfee_io.Base.Strings.{is_between}
use catfee_io.Store.{Text, text}
use catfee_io.Gateway.Receipts.{
  ReceiptResponse, absent, null_value, big_value, number_value, string_value, protobuf_unsigned,
  read_unsigned, replace_others, normalized_receipt_result, summarize_solidified_receipt,
}
use catfee_io.Gateway.Receipts.Storable.{IsStorable, summarize_solidified_receipt-IsStorable}

abbrev to_upper_case : Text → Text
to_upper_case [] = []
to_upper_case (c ∷ cs) = (if is_between 97 122 c then c - 32 else c) ∷ to_upper_case cs

abbrev response : ReceiptResponse
response = record {
  body = some (record {
    energy_usage_total = number_value (some (pos 65_000));
    energy_usage = string_value (text "0650");
    origin_energy_usage = absent;
    net_usage = number_value none;
    net_fee = big_value (negsuc 4);
    energy_fee = string_value (text "6,5");
    result = string_value (text " out of_energy! ");
  });
  fee = absent;
  result = null_value;
}

summary_runs : summarize_solidified_receipt to_upper_case response false ≡ (
  record {
    energy_usage_total = some 65_000;
    energy_usage = some 650;
    origin_energy_usage = some 0;
    net_usage = none;
    net_fee_sun = none;
    energy_fee_sun = none;
    total_fee_sun = some 0;
  },
  text "OUT_OF_ENERGY_",
)
unfolding summarize_solidified_receipt protobuf_unsigned read_unsigned normalized_receipt_result
    replace_others
summary_runs = refl

summarize_solidified_receipt-IsStorable_example :
    IsStorable (summarize_solidified_receipt to_upper_case response false).1
summarize_solidified_receipt-IsStorable_example =
    summarize_solidified_receipt-IsStorable to_upper_case response false
