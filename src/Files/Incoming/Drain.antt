-- ===== src/Files/Incoming/Drain.antt =====
-- Reading a part to its end.
use rust_api_stack.Base.{
  ℕ, zero, suc, ◌+◌, ◌≤◌, ◌<◌, ◌≡◌, refl, sym, ap, ◌∙◌, ◌↔◌, inl, inr, Bool, true, false, Option,
  none, some, [], ◌∷◌, arith, leb, length, Result, ok, err, Bool-cases, Option-cases,
}
use rust_api_stack.Files.{FileError, payload_too_large}
use rust_api_stack.Files.Incoming.{
  Bytes, FileStream, IncomingFile, checked_add, fail, accept_chunk, poll_stream, next_chunk, drain,
}

-- The bytes of all chunks, and whether the stream has no error.
unfoldable pub total : FileStream → ℕ
total [] = 0
total (err error ∷ stream) = total stream
total (ok chunk ∷ stream) = length chunk + total stream

unfoldable pub is_clean : FileStream → Bool
is_clean [] = true
is_clean (err error ∷ stream) = false
is_clean (ok chunk ∷ stream) = is_clean stream

module _ {HM : Type 0} where
  -- The part has been read within its limit, which is a `u64`.
  abbrev pub IsWithin : IncomingFile HM → Type 0
  IsWithin file = (file.bytes_read ≤ file.limit) × (file.limit < 18446744073709551616)

  -- The result and the count after reading to the end.
  unfoldable pub IsDrained :
      IncomingFile HM → IncomingFile HM → Result FileError (Unit {0}) → Type 0
  IsDrained file after result =
      ((result ≡ ok tt)
        ↔ ((is_clean file.stream ≡ true) × (file.bytes_read + total file.stream ≤ file.limit)))
      × (result ≡ ok tt → after.bytes_read ≡ file.bytes_read + total file.stream)
      × (after.bytes_read ≤ file.limit)

  -- The part is still being read.
  abbrev pub IsOpen : IncomingFile HM → Type 0
  IsOpen file = (file.error ≡ none) × (file.finished ≡ false)

  next_chunk-open :
      (file : IncomingFile HM) (stream : FileStream)
      → IsOpen file
      → file.stream ≡ stream
      → next_chunk file ≡ poll_stream stream file
  unfolding next_chunk
  next_chunk-open file stream (fine, going) e = ground arith

  accept_chunk-fits :
      (chunk : Bytes) (file : IncomingFile HM)
      → file.limit < 18446744073709551616
      → file.bytes_read + length chunk ≤ file.limit
      → accept_chunk chunk file
        ≡ (record file { bytes_read = file.bytes_read + length chunk }, ok (some chunk))
  unfolding accept_chunk checked_add fail
  accept_chunk-fits chunk file small fits = ground arith

  accept_chunk-exceeds :
      (chunk : Bytes) (file : IncomingFile HM)
      → file.limit < file.bytes_read + length chunk
      → accept_chunk chunk file
        ≡ (record file { error = some payload_too_large }, err payload_too_large)
  unfolding accept_chunk checked_add fail
  accept_chunk-exceeds chunk file exceeds = ground arith

  -- One round of the loop, by what it read.
  drain-suc :
      (rounds : ℕ) (file : IncomingFile HM)
      {step : IncomingFile HM × Result FileError (Option Bytes)}
      → next_chunk file ≡ step
      → drain (suc rounds) file ≡ elim step.1 [
        | err error ↦ some (step.0, err error)
        | ok chunk ↦ elim chunk [ none ↦ some (step.0, ok tt) | some bytes ↦ drain rounds step.0 ]
      ]
  unfolding drain
  drain-suc rounds file e =
      ap
        (λ step. elim step.1 [
          | err error ↦ some (step.0, err error)
          | ok chunk ↦ elim chunk [ none ↦ some (step.0, ok tt) | some bytes ↦ drain rounds step.0 ]
        ])
        e

  drain_from :
      (stream : FileStream) (rounds : ℕ) (file : IncomingFile HM)
      → IsOpen file
      → IsWithin file
      → file.stream ≡ stream
      → length stream < rounds
      → (after : IncomingFile HM) × (result : Result FileError (Unit {0})) × (drain rounds file
          ≡ some (after, result))
        × IsDrained file after result
  unfolding drain IsDrained total is_clean poll_stream fail
  drain_from stream zero file running within e enough = ground arith
  drain_from [] (suc rounds) file running within e enough =
      let step = next_chunk-open file [] running e in
      (record file { finished = true }, ok tt, drain-suc rounds file step, ground arith)
  drain_from (err error ∷ stream) (suc rounds) file running within e enough =
      let step = next_chunk-open file (err error ∷ stream) running e in
      (
        record file { stream = stream; error = some error },
        err error,
        drain-suc rounds file step,
        ground arith,
      )
  drain_from (ok chunk ∷ stream) (suc rounds) file running within e enough =
      let step = next_chunk-open file (ok chunk ∷ stream) running e in
      let next = record file { stream = stream; bytes_read = file.bytes_read + length chunk } in
      elim (Bool-cases (leb (file.bytes_read + length chunk) file.limit)) [
        | inl fits ↦
            let accepted =
              accept_chunk-fits chunk (record file { stream = stream }) within.1 (ground arith) in
            let (after, result, run, spec) =
              drain_from stream rounds next running (ground arith) refl (omega arith) in
            (after, result, drain-suc rounds file (step ∙ accepted) ∙ run, ground arith)
        | inr exceeds ↦
            let refused =
              accept_chunk-exceeds chunk (record file { stream = stream }) (ground arith) in
            (
              record file { stream = stream; error = some payload_too_large },
              err payload_too_large,
              drain-suc rounds file (step ∙ refused),
              ground arith,
            )
      ]

  -- A round for each chunk and one more is enough for `drain` to return. It succeeds exactly when the
  -- stream has no error and its bytes fit with those already read into the limit, and then counts
  -- them all; in every case the count stays within the limit.
  pub drain_completes :
      (file : IncomingFile HM) (rounds : ℕ)
      → IsOpen file
      → IsWithin file
      → length file.stream < rounds
      → (after : IncomingFile HM) × (result : Result FileError (Unit {0})) × (drain rounds file
          ≡ some (after, result))
        × IsDrained file after result
  drain_completes file rounds running within enough =
      drain_from file.stream rounds file running within refl enough

  poll_stream_final :
      (stream : FileStream) (file : IncomingFile HM) {next : IncomingFile HM} {error : FileError}
      → poll_stream stream file ≡ (next, err error)
      → next.error ≡ some error
  unfolding poll_stream fail accept_chunk checked_add
  poll_stream_final [] file e = ground arith
  poll_stream_final (err error ∷ stream) file e = ground arith
  poll_stream_final (ok chunk ∷ stream) file e = ground arith

  next_chunk-failed :
      (file : IncomingFile HM) {error : FileError}
      → file.error ≡ some error
      → next_chunk file ≡ (file, err error)
  unfolding next_chunk
  next_chunk-failed file e = ground arith

  next_chunk-ended :
      (file : IncomingFile HM)
      → file.error ≡ none
      → file.finished ≡ true
      → next_chunk file ≡ (file, ok none)
  unfolding next_chunk
  next_chunk-ended file fine finished = ground arith

  -- An error of a part is final: once `next_chunk` has returned one, every later call returns the
  -- same one and changes nothing.
  pub next_chunk_final :
      (file next : IncomingFile HM) (error : FileError)
      → next_chunk file ≡ (next, err error)
      → next_chunk next ≡ (next, err error)
  next_chunk_final file next error e = next_chunk-failed next (elim (Option-cases file.error) [
    | inr (old, failed) ↦
        let same = next_chunk-failed file failed in ground (arith, e, same, failed)
    | inl fine ↦ elim (Bool-cases file.finished) [
      | inl finished ↦
          let ended : next_chunk file ≡ (file, ok none) = next_chunk-ended file fine finished in cc
      | inr going ↦
          poll_stream_final file.stream file
            (sym (next_chunk-open file file.stream (fine, going) refl) ∙ e)
    ]
  ])
