-- ===== src/Tests/Uris.antt =====
-- A URI with a user, a port and two parameters, one of them without a value.
use xylitol.Base.{equal, [], ◌∷◌, ◌++◌, codes, ok, ◌≡◌, refl}
use xylitol.Text.{to_lower, trim_space}
use xylitol.Dict.{lookup}
use xylitol.Sip.Uri.{SipUri, parse_sip_uri, print_uri}
use xylitol.Sip.Uri.RoundTrip.{IsParam, IsUri, parse-print_uri}

abbrev uri : SipUri
uri = record {
  scheme = codes "s";
  user = codes "al";
  host = codes "h";
  port = codes "50";
  params = (codes "lr", []) ∷ (codes "x", codes "Y") ∷ [];
}

lr-IsParam : IsParam (codes "lr", [])
unfolding to_lower trim_space
lr-IsParam = record {
  key_kept = refl;
  value_kept = refl;
  key_lacks_equals = (refl, (refl, tt));
  key_in_part = (refl, (refl, tt));
  value_in_part = tt;
  plain = ((refl, (refl, tt)), tt);
}

x-IsParam : IsParam (codes "x", codes "Y")
unfolding to_lower trim_space
x-IsParam = record {
  key_kept = refl;
  value_kept = refl;
  key_lacks_equals = (refl, tt);
  key_in_part = (refl, tt);
  value_in_part = (refl, tt);
  plain = ((refl, tt), (refl, tt));
}

uri-IsUri : IsUri uri
unfolding lookup equal
uri-IsUri = record {
  scheme_part = ((refl, tt), (refl, tt));
  user_part = ((refl, (refl, tt)), (refl, (refl, tt)), (refl, (refl, tt)));
  host_part = ((refl, tt), (refl, tt), (refl, tt), (refl, tt));
  has_host = refl;
  port_part = ((refl, (refl, tt)), (refl, (refl, tt)), (refl, (refl, tt)));
  params_kept = (lr-IsParam, (x-IsParam, tt));
  distinct = (refl, (refl, tt));
}

printed_uri : print_uri uri ≡ codes "s:al@h:50;lr;x=Y"
unfolding print_uri
printed_uri = refl

parse-print_uri_example :
    (parse_sip_uri (print_uri uri) ≡ ok uri)
    × (parse_sip_uri (b'<' ∷ (print_uri uri ++ b'>' ∷ [])) ≡ ok uri)
parse-print_uri_example = parse-print_uri uri uri-IsUri
