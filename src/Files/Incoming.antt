-- ===== src/Files/Incoming.antt =====
-- `IncomingFile` of crates/rest/ras-file-core/src/lib.rs: a part of an upload, read chunk by chunk.
-- The stream is the list of what it yields before it ends.
pub mod Drain
use rust_api_stack.Base.{
  ℕ, zero, suc, ◌+◌, ◌≤◌, ◌<◌, ◌≡◌, refl, ◌∙◌, inl, inr, Bool, true, false, ◌&&◌, Option, none,
  some, List, [], ◌∷◌, ◌++◌, arith, ltb, leb, if◌then◌else◌, length, Result, ok, err, Bool-cases,
}
use rust_api_stack.Base.Text.{Text}
use rust_api_stack.Files.{FileError, payload_too_large}

abbrev pub Bytes : Type 0
Bytes = List ℕ

abbrev pub FileStream : Type 0
FileStream = List (Result FileError Bytes)

pub record IncomingFile (HM : Type 0) : Type 0 where
  pub field_name : Text
  pub file_name : Option Text
  pub content_type : Option Text
  pub headers : HM
  pub limit : ℕ
  pub bytes_read : ℕ
  pub finished : Bool
  pub error : Option FileError
  pub stream : FileStream

-- On `u64`.
unfoldable pub checked_add : ℕ → ℕ → Option ℕ
checked_add a b = if ltb (a + b) 18446744073709551616 then some (a + b) else none

module _ {HM : Type 0} where
  unfoldable pub new : Text → Option Text → Option Text → HM → ℕ → FileStream → IncomingFile HM
  new field_name file_name content_type headers limit stream = record {
    field_name = field_name;
    file_name = file_name;
    content_type = content_type;
    headers = headers;
    limit = limit;
    bytes_read = 0;
    finished = false;
    error = none;
    stream = stream;
  }

  unfoldable pub fail :
      {A : Type 0} → FileError → IncomingFile HM → IncomingFile HM × Result FileError A
  fail error file = (record file { error = some error }, err error)

  -- The chunk, if the total stays within the limit.
  unfoldable pub accept_chunk :
      Bytes → IncomingFile HM → IncomingFile HM × Result FileError (Option Bytes)
  accept_chunk chunk file = elim (checked_add file.bytes_read (length chunk)) [
    | none ↦ fail payload_too_large file
    | some next_total ↦
        if leb next_total file.limit
        then (record file { bytes_read = next_total }, ok (some chunk))
        else fail payload_too_large file
  ]

  -- `stream.next()` on a stream that has not ended.
  unfoldable pub poll_stream :
      FileStream → IncomingFile HM → IncomingFile HM × Result FileError (Option Bytes)
  poll_stream [] file = (record file { finished = true }, ok none)
  poll_stream (err error ∷ stream) file = fail error (record file { stream = stream })
  poll_stream (ok chunk ∷ stream) file = accept_chunk chunk (record file { stream = stream })

  unfoldable pub next_chunk : IncomingFile HM → IncomingFile HM × Result FileError (Option Bytes)
  next_chunk file = elim file.error [
    | some error ↦ (file, err error)
    | none ↦ (if file.finished then (file, ok none) else poll_stream file.stream file)
  ]

  -- `drain`, for as many rounds of its loop; `none` when they do not suffice.
  unfoldable pub drain :
      ℕ → IncomingFile HM → Option (IncomingFile HM × Result FileError (Unit {0}))
  drain zero file = none
  drain (suc rounds) file =
      let (next, result) = next_chunk file in
      elim result [
        | err error ↦ some (next, err error)
        | ok chunk ↦ elim chunk [ none ↦ some (next, ok tt) | some bytes ↦ drain rounds next ]
      ]
