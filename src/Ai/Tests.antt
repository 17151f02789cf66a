-- ===== src/Ai/Tests.antt =====
-- The theorems about the OCR parser on an answer of the model.
use ai_statement_analyzer.Base.{◌≡◌, refl, some, List, [], ◌∷◌, map}
use mathlib.Core.Option
use ai_statement_analyzer.Base.Maybe.{every}
use ai_statement_analyzer.Base.Text.{trim}
use ai_statement_analyzer.Base.Int.{pos}
use ai_statement_analyzer.Base.Number.{integer}
use ai_statement_analyzer.Failure.{ok}
use ai_statement_analyzer.Json.{Json, text, num, arr, obj, nil, cons, end, field}
use ai_statement_analyzer.Ai.OcrSchema.{
  food, transaction_date, is_transaction_date, merchant, amount, category, tool_subcategory,
  line_number, result_subcategory,
}
use ai_statement_analyzer.Ai.OcrParser.{
  OcrTransaction, parse_ocr_tool_input, ocr_tool_input, or_throw, to_result, ocr_result, document,
  tool_transaction, ocr_transaction, entry, category_and_subcategory_agree, lines_differ,
  transaction_json, result_json,
}
use ai_statement_analyzer.Ai.OcrParser.Agreement.{parse_ocr_tool_input_lem}
use ai_statement_analyzer.Ai.OcrParser.Bounds.{IsOcrResult, parse_ocr_tool_input-IsOcrResult}

abbrev coffee_line : Json
coffee_line = obj (
    field "transactionDate" (text "2026-01-05") (
      field "merchantRaw" (text "CAFE") (
        field "merchantName" (text "Cafe") (
          field "amount" (num (integer (pos 480))) (
            field "category" (text "食費") (
              field "subcategory" (text "カフェ")
                (field "lineNumber" (num (integer (pos 1))) end)))))))

abbrev pub answer : Json
answer = obj (field "transactions" (arr (cons coffee_line nil)) end)

abbrev pub parsed : List OcrTransaction
parsed =
    record {
      transaction_date = "2026-01-05";
      merchant_raw = "CAFE";
      merchant_name = "Cafe";
      amount = pos 480;
      category = food;
      subcategory = some "カフェ";
      line_number = 1;
    }
    ∷ []

pub answer-parsed : parse_ocr_tool_input answer ≡ ok parsed
unfolding parse_ocr_tool_input ocr_tool_input ocr_result document every tool_transaction
    ocr_transaction entry transaction_date is_transaction_date merchant trim amount category
    tool_subcategory line_number category_and_subcategory_agree lines_differ transaction_json
    result_json result_subcategory
answer-parsed = refl

parse_ocr_tool_input_lem_example :
    parse_ocr_tool_input answer ≡ or_throw (Option.map (map to_result) (ocr_tool_input answer))
parse_ocr_tool_input_lem_example = parse_ocr_tool_input_lem answer

parse_ocr_tool_input-IsOcrResult_example : IsOcrResult parsed
parse_ocr_tool_input-IsOcrResult_example =
    parse_ocr_tool_input-IsOcrResult answer parsed answer-parsed
