-- ===== src/Sip/Uri.antt =====
-- `SIPURI`, `ParseSIPURI` and `GetSIPURIHeader`.
pub mod RoundTrip
use xylitol.Base.{
  ℕ, suc, ◌||◌, Bool, List, [], ◌∷◌, ◌++◌, Option, none, some, ltb, ◌==◌, if◌then◌else◌, Bytes,
  take, drop, is_nil, Result, ok, err, missing_scheme, missing_host, header_not_found,
}
use xylitol.Text.{to_lower, trim, trim_space, index, split, cut}
use xylitol.Dict.{Dict, insert}
use xylitol.Sip.Message.{SipRequest, get_header}

pub record SipUri : Type 0 where
  pub scheme : Bytes
  pub user : Bytes
  pub host : Bytes
  pub port : Bytes
  pub params : Dict Bytes

-- The loop over `;`-separated parameters of a URI and of a Via value: `key`, or `key=value`.
unfoldable pub add_param : Bytes → Dict Bytes → Dict Bytes
unfolding cut trim_space to_lower insert
add_param param params = elim (cut (b'=' ∷ []) param) [
  | none ↦ insert (to_lower (trim_space param)) [] params
  | some (key, val) ↦ insert (to_lower (trim_space key)) (trim_space val) params
]

unfoldable pub parse_params : List Bytes → Dict Bytes → Dict Bytes
unfolding add_param
parse_params [] params = params
parse_params (p ∷ ps) params = parse_params ps (add_param p params)

-- `host:port`, the port empty where there is none.
unfoldable pub split_host_port : Bytes → Bytes × Bytes
unfolding cut
split_host_port s = elim (cut (b':' ∷ []) s) [ none ↦ (s, []) | some (host, port) ↦ (host, port) ]

-- `user@host:port`, the user empty where there is none.
split_user : Bytes → Bytes × Bytes
unfolding cut
split_user s = elim (cut (b'@' ∷ []) s) [ none ↦ ([], s) | some (user, rest) ↦ (user, rest) ]

abbrev is_angle : ℕ → Bool
is_angle c = c == b'<' || c == b'>'

build_uri : Bytes → Bytes × List Bytes → Result SipUri
unfolding split_user split_host_port parse_params
build_uri scheme (main_part, params) =
    let (user, host_port) = split_user main_part in
    let (host, port) = split_host_port host_port in
    if is_nil host
    then err missing_host
    else ok (record {
      scheme = scheme;
      user = user;
      host = host;
      port = port;
      params = parse_params params [];
    })

unfoldable pub parse_sip_uri : Bytes → Result SipUri
unfolding build_uri split trim cut
parse_sip_uri uri = elim (cut (b':' ∷ []) (trim is_angle uri)) [
  | none ↦ err missing_scheme
  | some (scheme, remaining) ↦ build_uri scheme (split b';' remaining)
]

-- `SIPURI.String`; the order of the parameters is that of the map.
print_params : Dict Bytes → Bytes
print_params [] = []
print_params ((k, v) ∷ m) =
    let later = print_params m in
    if is_nil v then b';' ∷ (k ++ later) else b';' ∷ (k ++ (b'=' ∷ (v ++ later)))

unfoldable pub print_uri : SipUri → Bytes
unfolding print_params
print_uri u =
    u.scheme
    ++ (b':'
        ∷ ((if is_nil u.user then [] else u.user ++ b'@' ∷ [])
            ++ (u.host
                ++ ((if is_nil u.port then [] else b':' ∷ u.port) ++ print_params u.params))))

-- `headerValue[start : end+1]`, the URI within the first angle brackets, where these stand in
-- order.
within_angles : Bytes → Option ℕ → Option ℕ → Bytes
within_angles value (some start) (some end) =
    if ltb start end then drop start (take (suc end) value) else value
within_angles value _ _ = value

unfoldable pub get_sip_uri_header : Bytes → SipRequest → Result SipUri
unfolding get_header within_angles index parse_sip_uri
get_sip_uri_header name r =
    let value = get_header name r in
    if is_nil value
    then err header_not_found
    else parse_sip_uri (within_angles value (index (b'<' ∷ []) value) (index (b'>' ∷ []) value))
