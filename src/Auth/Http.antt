-- ===== src/Auth/Http.antt =====
-- What crates/core/ras-auth-core/src/transport uses of the crates http and cookie: their types and
-- functions are parameters. A header name is in lower case, as `HeaderName` keeps it.
use rust_api_stack.Base.{Bool, Option, List, Result}
use rust_api_stack.Base.Text.{Text}
use rust_api_stack.Base.Int.{ℤ}

pub data SameSite : Type 0 where
  same_site_lax same_site_strict same_site_none : SameSite

-- What is given to the builder of a cookie. Times are in seconds.
pub record SetCookie : Type 0 where
  pub name : Text
  pub value : Text
  pub path : Text
  pub secure : Bool
  pub http_only : Bool
  pub same_site : SameSite
  pub domain : Option Text
  pub max_age : Option ℤ
  pub expires : Option ℤ

-- `HM` is `HeaderMap` and `HV` is `HeaderValue`. `split_parse` yields the name and the value of a
-- cookie, or `none` for a part that is not one.
pub record Http (HM HV : Type 0) : Type 0 where
  pub get : Text → HM → Option HV
  pub get_all : Text → HM → List HV
  pub contains_key : Text → HM → Bool
  pub remove : Text → HM → HM
  pub insert : Text → HV → HM → HM
  pub to_str : HV → Option Text
  pub from_str : Text → Result Text HV
  pub from_static : Text → HV
  pub split_parse : Text → List (Option (Text × Text))
  pub cookie_to_string : SetCookie → Text
