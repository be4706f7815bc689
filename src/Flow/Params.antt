-- ===== src/Flow/Params.antt =====
-- src/flow.rs: the inputs of a request, and the reading of one parameter.
pub mod Laws
use risaml.Prelude.{
  String, Option, none, some, List, [], ◌∷◌, Result, ok, err, map, filter, ◌==◌, string_eq,
  if◌then◌else◌,
}
use risaml.Errors.{SamlError, SamlResult}

-- The query, or the body, as its decoded pairs.
abbrev pub Parameters : Type 0
Parameters = List (String × String)

pub record HttpRequest : Type 0 where
  pub query : Parameters
  pub body : Parameters
  pub octet_string : Option String

abbrev pub redirect : Parameters → HttpRequest
redirect query = record { query = query; body = []; octet_string = none }

abbrev pub post : Parameters → HttpRequest
post body = record { query = []; body = body; octet_string = none }

abbrev pub values_of : Parameters → String → List String
values_of params key =
    map (λ (p : String × String). p.1) (filter (λ (p : String × String). p.0 == key) params)

-- What the iterator over the values yields first, if nothing comes second.
abbrev pub only_value : List String → SamlResult (Option String)
only_value [] = ok none
only_value (v ∷ []) = ok (some v)
only_value _ = err (SamlError.invalid "ERR_AMBIGUOUS_FLOW_INPUT")

unfoldable pub single_param : Parameters → String → SamlResult (Option String)
single_param params key = only_value (values_of params key)

unfoldable pub query_get : HttpRequest → String → SamlResult (Option String)
query_get request key = single_param request.query key

unfoldable pub body_get : HttpRequest → String → SamlResult (Option String)
body_get request key = single_param request.body key
