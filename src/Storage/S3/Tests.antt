-- ===== src/Storage/S3/Tests.antt =====
-- Runs of the object store over S3.
use ai_statement_analyzer.Base.{◌≡◌, refl, true, false, none, some, [], ◌∷◌, map}
use ai_statement_analyzer.Storage.S3.{
  GetOutput, get_object, S3Client, read_web, read_object_body, bytes_read, read_object,
  async_iterable, byte_array, collect, web_stream, fill, set_at, overlay,
}
use ai_statement_analyzer.Storage.{DownloadedObject}
use ai_statement_analyzer.Storage.S3.Objects.{IsImage, get_object-IsImage}
use ai_statement_analyzer.Effects.{pure}
use ai_statement_analyzer.Storage.S3.Reading.{read_web-cancelled, read_object_body-chunks}
use ai_statement_analyzer.Failure.{ok}

read_object_body-chunks_example :
    (read_object_body (async_iterable (map bytes_read ((1 ∷ 2 ∷ []) ∷ (3 ∷ []) ∷ [])))
      ≡ read_object_body (byte_array (1 ∷ 2 ∷ 3 ∷ [])))
    × (read_object_body (web_stream (ok (map bytes_read ((1 ∷ 2 ∷ []) ∷ (3 ∷ []) ∷ []))) none)
        ≡ read_object_body (byte_array (1 ∷ 2 ∷ 3 ∷ [])))
read_object_body-chunks_example = read_object_body-chunks ((1 ∷ 2 ∷ []) ∷ (3 ∷ []) ∷ [])

read_web-cancelled_example :
    (read_web none (map bytes_read ((1 ∷ 2 ∷ []) ∷ []))).1
    ≡ record { cancelled = false; released = true }
read_web-cancelled_example = read_web-cancelled none ((1 ∷ 2 ∷ []) ∷ [])

abbrev stored : GetOutput
stored = record {
  head = record { content_type = some "image/png"; content_length = some 3 };
  body = async_iterable (bytes_read (1 ∷ 2 ∷ []) ∷ bytes_read (3 ∷ []) ∷ []);
}

abbrev client : S3Client Unit
client = record {
  send_head = λ key. pure stored.head;
  send_get = λ key. pure stored;
  get_signed_url = λ input. pure input.key;
}

abbrev downloaded : DownloadedObject
downloaded = record {
  metadata = record { content_type = some "image/png"; content_length = 3 };
  bytes = 1 ∷ 2 ∷ 3 ∷ [];
}

run : (get_object client "key" tt).0 ≡ ok downloaded
unfolding get_object read_object read_object_body collect fill set_at overlay
run = refl

get_object-IsImage_example : IsImage downloaded
get_object-IsImage_example = get_object-IsImage client "key" tt downloaded run
