-- ===== src/Http/Requests.antt =====
-- normalize_request_id, is_health_check_request and the refusal while the service shuts down, of
-- src/http/app.ts.
use Prim.Native.Char.{code}
use Prim.Native.String.{String, [], ◌∷◌}
use driveparts_websockets.Prelude.{
  ℕ, Bool, true, false, not, ◌&&◌, ◌||◌, Option, none, some, ◌==◌, eqb, leb, ltb, if◌then◌else◌,
  trim, text_length,
}
use driveparts_websockets.Value.{Value, string, array, nil, cons}
use driveparts_websockets.Http.{Response, answer, refused}

-- /[A-Za-z0-9._:-]/
abbrev pub is_id_char : ℕ → Bool
is_id_char c =
    (leb 65 c && leb c 90)
    || ((leb 97 c && leb c 122)
        || ((leb 48 c && leb c 57) || (eqb c 46 || (eqb c 95 || (eqb c 58 || eqb c 45)))))

abbrev pub all_id_chars : String → Bool
all_id_chars [] = true
all_id_chars (c ∷ s) = is_id_char (code c) && all_id_chars s

-- `Array.isArray(value) ? value[0] : value`
abbrev candidate_of : Value → Value
candidate_of (array nil) = Value.undefined
candidate_of (array (cons v vs)) = v
candidate_of v = v

abbrev pub normalized_id : String → Option String
normalized_id normalized =
    if normalized == "" || (ltb 128 (text_length normalized) || not (all_id_chars normalized))
    then none
    else some normalized

abbrev id_of : Value → Option String
id_of (string s) = normalized_id (trim s)
id_of _ = none

unfoldable pub normalize_request_id : Value → Option String
normalize_request_id value = id_of (candidate_of value)

-- `url.split('?', 1)[0]`
abbrev pub path_of : String → String
path_of [] = []
path_of (c ∷ s) = let rest = path_of s in if eqb (code c) 63 then [] else c ∷ rest

abbrev health_path : Option String → Bool
health_path none = false
health_path (some url) = let path = path_of url in path == "/health/live" || path == "/health/ready"

abbrev read_method : Option String → Bool
read_method none = false
read_method (some method) = method == "GET" || method == "HEAD"

unfoldable pub is_health_check_request : Option String → Option String → Bool
is_health_check_request method url = if read_method method then health_path url else false

-- The answer that takes the place of the route's; `none` lets the request pass.
unfoldable pub shutdown_guard : Bool → Option String → Option String → Option Response
unfolding is_health_check_request
shutdown_guard is_shutting_down method path =
    if not (is_health_check_request method path) && is_shutting_down
    then some (answer 503 (refused "service_unavailable" "service_shutting_down"))
    else none
