-- ===== src/Sip/Via.antt =====
-- `Via`, `ParseVia`, and the Via headers of requests and of responses.
pub mod Values
use xylitol.Base.{
  ℕ, ◌&&◌, not, Bool, true, false, List, [], ◌∷◌, ◌++◌, Option, none, some, ◌==◌, if◌then◌else◌,
  Bytes, codes, is_nil, Error, Result, ok, err, panic, ◌>>=◌, malformed_sent_by, no_via,
}
use xylitol.Text.{to_lower, trim_space, split, cut, fields}
use xylitol.Text.{Parts, all_parts, new_part, add_byte}
use xylitol.Dict.{Dict, lookup, get, insert, delete, or_empty}
use xylitol.Sip.Message.{SipRequest, SipResponse, get_header, get_response_header}
use xylitol.Sip.Uri.{parse_params, split_host_port}

pub record Via : Type 0 where
  pub proto : Bytes
  pub host : Bytes
  pub port : Bytes
  pub params : Dict Bytes

unfoldable pub get_param : Bytes → Via → Option Bytes
unfolding lookup to_lower
get_param name v = lookup (to_lower name) v.params

unfoldable pub branch : Via → Bytes
unfolding get_param
branch v = or_empty (get_param (codes "branch") v)

-- On the words of the first part and the parameters: exactly two words, a protocol and a sender.
build_via : List Bytes → List Bytes → Result Via
unfolding split_host_port parse_params
build_via (proto ∷ sent_by ∷ []) params =
    let (host, port) = split_host_port sent_by in
    ok (record { proto = proto; host = host; port = port; params = parse_params params [] })
build_via _ params = err malformed_sent_by

unfoldable pub parse_via : Bytes → Result Via
unfolding build_via split fields
parse_via value = let (part, params) = split b';' value in build_via (fields part) params

-- The flag is `inQuotes`.
unfoldable pub split_outside_quotes : Bool → Bytes → Parts
split_outside_quotes in_quotes [] = ([], [])
split_outside_quotes in_quotes (c ∷ s) =
    let rest = split_outside_quotes (if c == b'"' then not in_quotes else in_quotes) s in
    if c == b'"'
    then add_byte c rest
    else if c == b',' && not in_quotes
    then new_part rest
    else add_byte c rest

unfoldable pub split_by_comma_outside_quotes : Bytes → Parts
unfolding split_outside_quotes
split_by_comma_outside_quotes = split_outside_quotes false

unfoldable pub top_via : SipRequest → Result Via
unfolding get_header split_by_comma_outside_quotes trim_space parse_via
top_via r =
    let header = get_header (codes "Via") r in
    if is_nil header
    then err no_via
    else parse_via (trim_space (split_by_comma_outside_quotes header).0)

-- The loop of `AllVias`: the values parsed so far, and the first error.
parse_vias : List Bytes → List Via → List Via × Option Error
unfolding trim_space parse_via
parse_vias [] vias = (vias, none)
parse_vias (value ∷ values) vias = elim (is_nil (trim_space value)) [
  | true ↦ parse_vias values vias
  | false ↦ elim (parse_via (trim_space value)) [
    | ok via ↦ parse_vias values (vias ++ via ∷ [])
    | err e ↦ (vias, some e)
    | panic ↦ (vias, none)
  ]
]

unfoldable pub all_vias : SipRequest → List Via × Option Error
unfolding get_header split_by_comma_outside_quotes parse_vias
all_vias r =
    let header = get_header (codes "Via") r in
    if is_nil header
    then ([], none)
    else parse_vias (all_parts (split_by_comma_outside_quotes header)) []

-- `SIPResponse.TopVia` on the header: up to the first comma, in quotes or not.
unfoldable pub first_via : Bytes → Result Via
first_via header = if is_nil header then err no_via else elim (cut (b',' ∷ []) header) [
  | none ↦ parse_via header
  | some (top, _) ↦ parse_via (trim_space top)
]

unfoldable pub response_top_via : SipResponse → Result Via
unfolding first_via
response_top_via r = first_via (get_response_header (codes "Via") r)

-- `PopVia` on the header and the map.
unfoldable pub without_first_via : Bytes → Dict Bytes → Dict Bytes
without_first_via header headers =
    if is_nil header then headers else elim (cut (b',' ∷ []) header) [
      | none ↦ delete (codes "Via") headers
      | some (_, others) ↦ insert (codes "Via") (trim_space others) headers
    ]

unfoldable pub pop_via : SipResponse → SipResponse
unfolding without_first_via
pop_via r = record r { headers = without_first_via (get_response_header (codes "Via") r) r.headers }
