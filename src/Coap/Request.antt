-- ===== src/Coap/Request.antt =====
-- `build_get_request`. A text of the path or of the query stands as its UTF-8 bytes, which
-- `_option_bytes` makes of it.
pub mod Parsed
use smart_things_local.Prelude.{ℕ, List, [], ◌∷◌, ◌++◌, Option, none, some, ltb, if◌then◌else◌}
use smart_things_local.Prelude.Bytes.{Bytes}
use smart_things_local.Errors.{Result, ok, err, value_error, ◌>>=◌}
use smart_things_local.Coap.Options.{CoapOption}
use smart_things_local.Coap.Wire.{build_coap}
use smart_things_local.Coap.Block.{block_value}

abbrev pub uri_path : ℕ
uri_path = 11

abbrev pub uri_query : ℕ
uri_query = 15

abbrev pub accept_option : ℕ
accept_option = 17

abbrev pub block2 : ℕ
block2 = 23

abbrev pub method_get : ℕ
method_get = 1

pub record GetRequest : Type 0 where
  pub mtype : ℕ
  pub mid : ℕ
  pub token : Bytes
  pub path_segs : List Bytes
  pub query : List Bytes
  pub accept : Option Bytes
  pub block_number : Option ℕ
  pub block_szx : ℕ
  pub extra_options : List CoapOption

abbrev pub options_of : ℕ → List Bytes → List CoapOption
options_of number [] = []
options_of number (v ∷ vs) = (number, v) ∷ options_of number vs

abbrev pub one_of : Option Bytes → List Bytes
one_of none = []
one_of (some v) = v ∷ []

unfoldable pub block_option : Option ℕ → ℕ → Result (List Bytes)
block_option none szx = ok []
block_option (some num) szx =
    if ltb 6 szx then err value_error else do v ← block_value num 0 szx; ok (v ∷ [])

abbrev pub request_options : GetRequest → List Bytes → List CoapOption
request_options r block =
    options_of uri_path r.path_segs
    ++ (options_of uri_query r.query
        ++ (options_of accept_option (one_of r.accept)
            ++ (options_of block2 block ++ r.extra_options)))

unfoldable pub build_get_request : GetRequest → Result Bytes
build_get_request r = do
  block ← block_option r.block_number r.block_szx
  build_coap r.mtype method_get r.mid r.token (request_options r block) []
