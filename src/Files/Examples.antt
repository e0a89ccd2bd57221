-- ===== src/Files/Examples.antt =====
-- Concrete uploads and downloads, with the header map of the examples of ras-auth-core.
use rust_api_stack.Base.{◌≡◌, refl, false, none, some, [], ◌∷◌, ◌++◌, map, arith, Result, ok}
use rust_api_stack.Base.Text.{codes, bytes}
use rust_api_stack.Auth.Examples.{Headers}
use rust_api_stack.Files.{FileError}
use rust_api_stack.Files.Filename.{IsComponent, sanitize_filename, sanitize_filename-IsComponent}
use rust_api_stack.Files.Disposition.{
  legacy, read_quoted, plain, percent_decode, quote_disposition_filename, rfc5987_encode, is_char,
  read_quoted-quote, percent_decode-rfc5987_encode,
}
use rust_api_stack.Files.Incoming.{IncomingFile, FileStream, new, drain}
use rust_api_stack.Files.Incoming.Drain.{IsDrained, drain_completes}

sanitize_filename-IsComponent_example : IsComponent (sanitize_filename (codes "..\\..//etc/passwd"))
sanitize_filename-IsComponent_example = sanitize_filename-IsComponent (codes "..\\..//etc/passwd")

read_quoted-quote_example :
    read_quoted false (quote_disposition_filename (codes "a\"; b\\") ++ b'"' ∷ codes "; c")
    ≡ some (map legacy (codes "a\"; b\\"), codes "; c")
read_quoted-quote_example = read_quoted-quote (codes "a\"; b\\") (codes "; c")

percent_decode-rfc5987_encode_example :
    percent_decode plain (rfc5987_encode (codes "naïve 1.txt")) ≡ bytes (codes "naïve 1.txt")
unfolding is_char
percent_decode-rfc5987_encode_example = percent_decode-rfc5987_encode (codes "naïve 1.txt") refl

abbrev part : FileStream → IncomingFile Headers
part stream = new (codes "file") none none (λ name. []) 10 stream

abbrev two_chunks : FileStream
two_chunks = ok (1 ∷ 2 ∷ 3 ∷ []) ∷ ok (4 ∷ 5 ∷ []) ∷ []

drain_completes_example :
    (after : IncomingFile Headers) × (result : Result FileError (Unit {0})) × (drain 3
        (part two_chunks)
      ≡ some (after, result))
    × IsDrained (part two_chunks) after result
unfolding new
drain_completes_example =
    drain_completes (part two_chunks) 3 (refl, refl) (omega arith, omega arith) (omega arith)
