-- ===== src/Queue/Sqs/Tests.antt =====
-- The theorem about the queue on one message.
use ai_statement_analyzer.Base.{String, ◌≡◌, refl, true, Option, none, some, [], ◌∷◌, str_eq, false}
use ai_statement_analyzer.Base.{List, arith, All, Bool-cases, eq_iff, inl, inr, sym, ap}
use ai_statement_analyzer.Base.Int.{pos}
use ai_statement_analyzer.Base.Number.{integer}
use ai_statement_analyzer.Failure.{ok}
use mathlib.Core.Option.{some-injective}
use ai_statement_analyzer.Json.{Json, obj, text, field, end}
use ai_statement_analyzer.Queue.Sqs.{
  Message, SqsClient, read_message, analyze_job_message, Platform, message_json, receive_one,
  read_count, send_analyze_job,
}
use ai_statement_analyzer.Queue.Sqs.Delivery.{
  JsonLaws, receive_one-sent, IsDelivered, QueueLaws, after_sending, IsSentJob,
}

-- Texts for the objects of one text, by a letter before it.
abbrev written : Json → String
written (obj (field key (text s) end)) = String.◌∷◌ "j" s
written _ = ""

abbrev read_back : String → Option Json
read_back String.[] = none
read_back (String.◌∷◌ c s) = some (message_json s)

abbrev platform : Platform
platform = record {
  parse = read_back;
  stringify = written;
  to_number = λ s. integer (pos 2);
  is_uuid = λ s. true;
}

written-present : (id : String) → str_eq (written (message_json id)) "" ≡ false
written-present id = elim (Bool-cases (str_eq (written (message_json id)) "")) [
  | inr present ↦ present
  | inl empty ↦
      let same : written (message_json id) ≡ "" = (eq_iff (written (message_json id)) "").0 empty in
      let nothing : none ≡ some (message_json id) = sym (ap read_back same) in cc
]

platform-JsonLaws : JsonLaws platform
platform-JsonLaws = record { parses = λ id. refl; present = written-present }

-- A queue that keeps the last message, and delivers it again and again.
abbrev delivered : Option String → List Message
delivered none = []
delivered (some body) =
    record {
      message_id = some "m1";
      receipt_handle = some "r1";
      body = some body;
      approximate_receive_count = none;
    }
    ∷ []

abbrev client : SqsClient (Option String)
client = record {
  send_message = λ body s. (ok tt, some body);
  receive_message = λ s. (ok (delivered s), s);
  delete_message = λ handle s. (ok tt, none);
}

abbrev Holds : Option String → String → Type 0
Holds s body = s ≡ some body

delivered-IsDelivered : (s : Option String) → All (IsDelivered (Holds s)) (delivered s)
delivered-IsDelivered none = tt
delivered-IsDelivered (some body) = (
  record {
    message_id = "m1";
    receipt_handle = "r1";
    body = body;
    has_id = refl;
    id_present = refl;
    has_handle = refl;
    handle_present = refl;
    has_body = refl;
    held = refl;
  },
  tt,
)

client-QueueLaws : QueueLaws client Holds
client-QueueLaws = record {
  adds = λ body s x h. inr (sym (some-injective _ _ h));
  delivers = λ s messages h.
      let same : delivered s ≡ messages = ground (arith, h) in
      rw (← same) (delivered-IsDelivered s);
}

received_last :
    (receive_one platform client (after_sending platform client ("s2" ∷ "s1" ∷ []) none)).0
    ≡ ok (
        some (record {
          statement_id = "s2";
          message_id = "m1";
          receipt_handle = "r1";
          receive_count = read_count platform none;
        }))
unfolding receive_one read_message analyze_job_message send_analyze_job
received_last = refl

nothing_held : (x : String) → ¬ Holds none x
nothing_held x h = cc

receive_one-sent_example :
    IsSentJob platform client
      ("s2" ∷ "s1" ∷ [])
      (client.receive_message (after_sending platform client ("s2" ∷ "s1" ∷ []) none)).0
      (receive_one platform client (after_sending platform client ("s2" ∷ "s1" ∷ []) none)).0
receive_one-sent_example =
    receive_one-sent platform client Holds client-QueueLaws platform-JsonLaws ("s2" ∷ "s1" ∷ [])
      none nothing_held
