-- ===== src/Queue/Sqs/Delivery.antt =====
-- What a queue delivers of the messages that were sent.
use ai_statement_analyzer.Base.{
  String, ◌≡◌, refl, true, false, ◌⊎◌, inl, inr, Option, none, some, List, [], ◌∷◌, str_eq, All,
  Bool-cases, eq_refl, arith,
}
use ai_statement_analyzer.Failure.{Outcome, ok, throw}
use ai_statement_analyzer.Json.{includes}
use ai_statement_analyzer.Queue.{ReceivedAnalyzeJob}
use ai_statement_analyzer.Queue.Sqs.{
  Message, SqsClient, Platform, message_json, analyze_job_message, read_count, read_message,
  receive_one, send_analyze_job, received,
}

-- JSON text that is parsed back is the value, and an object's text is not empty.
pub record JsonLaws (platform : Platform) : Type 0 where
  pub parses :
      (id : String) → platform.parse (platform.stringify (message_json id)) ≡ some (message_json id)
  pub present : (id : String) → str_eq (platform.stringify (message_json id)) "" ≡ false

-- A delivered message has an identifier, a receipt handle and the body of a message of the queue.
pub record IsDelivered (Holds : String → Type 0) (m : Message) : Type 0 where
  pub message_id : String
  pub receipt_handle : String
  pub body : String
  pub has_id : m.message_id ≡ some message_id
  pub id_present : str_eq message_id "" ≡ false
  pub has_handle : m.receipt_handle ≡ some receipt_handle
  pub handle_present : str_eq receipt_handle "" ≡ false
  pub has_body : m.body ≡ some body
  pub held : Holds body

-- The queue behind a client, by the bodies that it may deliver: a call of `SendMessage` adds its body
-- at most, and a call of `ReceiveMessage` delivers, in any order, messages of the queue.
pub record QueueLaws {S : Type 0} (client : SqsClient S) (Holds : S → String → Type 0)
    : Type 0 where
  pub adds :
      (body : String) (s : S) (x : String)
      → Holds (client.send_message body s).1 x
      → Holds s x ⊎ (x ≡ body)
  pub delivers :
      (s : S) (messages : List Message)
      → (client.receive_message s).0 ≡ ok messages
      → All (IsDelivered (Holds s)) messages

module _ (platform : Platform) {S : Type 0} (client : SqsClient S) where
  -- The queue after a job was sent, or tried to be sent, for each statement; the last one is first.
  abbrev pub after_sending : List String → S → S
  after_sending [] s = s
  after_sending (id ∷ ids) s = (send_analyze_job platform client id (after_sending ids s)).1

  -- What `receiveOne` answers, by what the client answers: the client's error, nothing where there is
  -- no message, and else the job of a statement that a job was sent for, never an error of its own.
  abbrev pub IsSentJob :
      List String → Outcome (List Message) → Outcome (Option ReceivedAnalyzeJob) → Type 0
  IsSentJob ids (throw e) answer = answer ≡ throw e
  IsSentJob ids (ok []) answer = answer ≡ ok none
  IsSentJob ids (ok (m ∷ messages)) answer =
      (job : ReceivedAnalyzeJob) × (answer ≡ ok (some job))
      × (includes ids job.statement_id ≡ true)
      × (m.message_id ≡ some job.message_id)
      × (m.receipt_handle ≡ some job.receipt_handle)

  -- A body that was sent for one of the statements.
  record IsBody (ids : List String) (body : String) : Type 0 where
    pub id : String
    pub listed : includes ids id ≡ true
    pub valid : platform.is_uuid id ≡ true
    pub written : body ≡ platform.stringify (message_json id)

  module _ (Holds : S → String → Type 0) (queue : QueueLaws client Holds)
      (laws : JsonLaws platform) where
    later : (id x : String) (ids : List String) → IsBody ids x → IsBody (id ∷ ids) x
    later id x ids b = record {
      id = b.id;
      listed = rw b.listed (ground arith);
      valid = b.valid;
      written = b.written;
    }

    send-IsBody :
        (id : String) (ids : List String) (s : S)
        → ((x : String) → Holds s x → IsBody ids x)
        → (x : String) → Holds (send_analyze_job platform client id s).1 x
        → IsBody (id ∷ ids) x
    unfolding send_analyze_job
    send-IsBody id ids s known x h = elim (Bool-cases (platform.is_uuid id)) [
      | inr n ↦ later id x ids (known x (rw n at h))
      | inl y ↦ elim (queue.adds (platform.stringify (message_json id)) s x (rw y at h)) [
        | inl old ↦ later id x ids (known x old)
        | inr new ↦ record { id = id; listed = rw (eq_refl id) refl; valid = y; written = new }
      ]
    ]

    after_sending-IsBody :
        (ids : List String) (s : S)
        → ((x : String) → ¬ Holds s x)
        → (x : String) → Holds (after_sending ids s) x
        → IsBody ids x
    after_sending-IsBody [] s empty x h = absurd (empty x h)
    after_sending-IsBody (id ∷ ids) s empty x h =
        send-IsBody id ids (after_sending ids s) (after_sending-IsBody ids s empty) x h

    received-IsSentJob :
        (ids : List String) (o : Outcome (List Message)) (bodies : String → Type 0)
        → ((x : String) → bodies x → IsBody ids x)
        → ((messages : List Message) → o ≡ ok messages → All (IsDelivered bodies) messages)
        → IsSentJob ids o (received platform client o)
    unfolding read_message analyze_job_message
    received-IsSentJob ids (throw e) bodies known delivers = refl
    received-IsSentJob ids (ok []) bodies known delivers = refl
    received-IsSentJob ids (ok (m ∷ messages)) bodies known delivers =
        let d = (delivers (m ∷ messages) refl).0 in
        let b = known d.body d.held in
        (
          record {
            statement_id = b.id;
            message_id = d.message_id;
            receipt_handle = d.receipt_handle;
            receive_count = read_count platform m.approximate_receive_count;
          },
          rw
              (
                d.has_id,
                d.id_present,
                d.has_handle,
                d.handle_present,
                d.has_body,
                b.written,
                laws.present b.id,
                laws.parses b.id,
                b.valid,
              )
              refl,
          b.listed,
          d.has_id,
          d.has_handle,
        )

    -- An empty queue that jobs are sent to for any statements, valid or not, whether or not the client
    -- accepts them: `receiveOne` then throws the client's error, or answers nothing where no message
    -- is delivered, or gives the job of one of these statements with the texts of the first message;
    -- no body that `sendAnalyzeJob` wrote is refused as invalid.
    pub receive_one-sent :
        (ids : List String) (s : S)
        → ((x : String) → ¬ Holds s x)
        → IsSentJob ids
            (client.receive_message (after_sending ids s)).0
            (receive_one platform client (after_sending ids s)).0
    unfolding receive_one
    receive_one-sent ids s empty =
        received-IsSentJob ids (client.receive_message (after_sending ids s)).0
          (Holds (after_sending ids s)) (after_sending-IsBody ids s empty)
          (queue.delivers (after_sending ids s))
