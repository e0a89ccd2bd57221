-- ===== src/Files/Download.antt =====
-- `DownloadResponse` of crates/rest/ras-file-core/src/lib.rs, over the crate http.
use rust_api_stack.Base.{
  ℕ, ◌≡◌, refl, Bool, true, not, List, [], ◌∷◌, ◌++◌, arith, filter, all, Result, ok, map_err,
  ◌>>=◌,
}
use rust_api_stack.Base.Text.{Text, codes}
use rust_api_stack.Auth.Http.{Http}
use rust_api_stack.Auth.Log.{is_control}
use rust_api_stack.Files.{FileError, bad_request}
use rust_api_stack.Files.Disposition.{
  quote_disposition_filename, rfc5987_encode, is_char, is_visible, all_visible-append,
  quote-visible, rfc5987_encode-visible,
}

-- A stream is the chunks or errors that it yields.
pub data DownloadBody : Type 0 where
  empty : DownloadBody
  in_memory : List ℕ → DownloadBody
  streamed : List (Result FileError (List ℕ)) → DownloadBody

pub record DownloadResponse (HM : Type 0) : Type 0 where
  pub status : ℕ
  pub headers : HM
  pub body : DownloadBody

-- The name without its control characters, in both forms.
unfoldable pub disposition : Text → Text
disposition filename =
    let name = filter (λ c. not (is_control c)) filename in
    codes "attachment; filename=\""
    ++ (quote_disposition_filename name ++ (codes "\"; filename*=UTF-8''" ++ rfc5987_encode name))

module _ {HM HV : Type 0} (http : Http HM HV) where
  unfoldable pub header : Text → HV → DownloadResponse HM → DownloadResponse HM
  header name value response = record response { headers = http.insert name value response.headers }

  unfoldable pub content_type : Text → DownloadResponse HM → Result FileError (DownloadResponse HM)
  content_type text response = do
    value ← map_err (λ e. bad_request (codes "invalid content type: " ++ e)) (http.from_str text)
    ok (header (codes "content-type") value response)

  unfoldable pub etag : Text → DownloadResponse HM → Result FileError (DownloadResponse HM)
  etag text response = do
    value ← map_err (λ e. bad_request (codes "invalid etag: " ++ e)) (http.from_str text)
    ok (header (codes "etag") value response)

  unfoldable pub attachment : Text → DownloadResponse HM → Result FileError (DownloadResponse HM)
  attachment filename response = do
    value ←
        map_err (λ e. bad_request (codes "invalid filename: " ++ e))
          (http.from_str (disposition filename))
    ok (header (codes "content-disposition") value response)

all-filter : (p q : ℕ → Bool) (s : Text) → all p s ≡ true → all p (filter q s) ≡ true
all-filter p q [] h = refl
all-filter p q (c ∷ s) h = ground (arith, all-filter p q s)

disposition-visible :
    (filename : Text) → all is_char filename ≡ true → all is_visible (disposition filename) ≡ true
unfolding disposition is_visible
disposition-visible filename h =
    let name = filter (λ c. not (is_control c)) filename in
    let unicode = all-filter is_char (λ c. not (is_control c)) filename h in
    all_visible-append (codes "attachment; filename=\"")
      (quote_disposition_filename name ++ (codes "\"; filename*=UTF-8''" ++ rfc5987_encode name))
      refl
      (all_visible-append (quote_disposition_filename name)
        (codes "\"; filename*=UTF-8''" ++ rfc5987_encode name) (quote-visible name)
        (all_visible-append (codes "\"; filename*=UTF-8''") (rfc5987_encode name) refl
          (rfc5987_encode-visible name unicode)))

-- Where the crate http takes every value of visible ASCII characters and spaces, `attachment` never
-- fails, whatever Unicode file name it is given: the escaping rules out what a header cannot hold.
pub attachment_succeeds :
    {HM HV : Type 0} (http : Http HM HV)
    (accepts : (s : Text) → all is_visible s ≡ true → (v : HV) × (http.from_str s ≡ ok v))
    (filename : Text) (response : DownloadResponse HM)
    → all is_char filename ≡ true
    → (v : HV) × (http.from_str (disposition filename) ≡ ok v)
      × (attachment http filename response
          ≡ ok (header http (codes "content-disposition") v response))
unfolding attachment
attachment_succeeds http accepts filename response unicode =
    let (v, e) = accepts (disposition filename) (disposition-visible filename unicode) in
    (v, e, rw (attachment, e) refl)
