-- ===== src/Sip/Uri/RoundTrip.antt =====
-- A printed URI is parsed back.
use xylitol.Base.{
  ℕ, false, List, [], ◌∷◌, ◌++◌, append_assoc, append-nil, map, some, if◌then◌else◌, Bytes, is_nil,
  All, All-append, Result, ok, ◌≡◌, refl, sym, ap, ◌∙◌, arith,
}
use xylitol.Text.{to_lower, trim_space, trim, trim_left, trim_right, split, all_parts, cut}
use xylitol.Text.Laws.{Lacks, cut-append, cut_lacking, split-append, split_lacking}
use xylitol.Dict.{Dict, insert, insert-append}
use xylitol.Sip.Request.Printed.{AreNew}
use xylitol.Sip.Uri.{
  SipUri, add_param, parse_params, split_host_port, split_user, is_angle, build_uri, parse_sip_uri,
  print_params, print_uri,
}

-- Neither angle bracket.
abbrev pub IsPlain : Bytes → Type 0
IsPlain s = All (λ c. is_angle c ≡ false) s

-- A parameter that is read back, with or without a value.
pub record IsParam (param : Bytes × Bytes) : Type 0 where
  pub key_kept : to_lower (trim_space param.0) ≡ param.0
  pub value_kept : trim_space param.1 ≡ param.1
  pub key_lacks_equals : Lacks b'=' param.0
  pub key_in_part : Lacks b';' param.0
  pub value_in_part : Lacks b';' param.1
  pub plain : IsPlain param.0 × IsPlain param.1

pub record IsUri (u : SipUri) : Type 0 where
  pub scheme_part : Lacks b':' u.scheme × IsPlain u.scheme
  pub user_part : Lacks b'@' u.user × Lacks b';' u.user × IsPlain u.user
  pub host_part : Lacks b'@' u.host × Lacks b':' u.host × Lacks b';' u.host × IsPlain u.host
  pub has_host : is_nil u.host ≡ false
  pub port_part : Lacks b'@' u.port × Lacks b';' u.port × IsPlain u.port
  pub params_kept : All IsParam u.params
  pub distinct : AreNew [] u.params

abbrev param_text : Bytes × Bytes → Bytes
param_text (key, []) = key
param_text (key, c ∷ value) = key ++ (b'=' ∷ c ∷ value)

print_params-cons :
    (param : Bytes × Bytes) (params : Dict Bytes)
    → print_params (param ∷ params) ≡ b';' ∷ (param_text param ++ print_params params)
unfolding print_params
print_params-cons (key, []) params = refl
print_params-cons (key, c ∷ value) params =
    ap (λ s. b';' ∷ s) (sym (append_assoc key (b'=' ∷ c ∷ value) (print_params params)))

Lacks-param_text : (param : Bytes × Bytes) → IsParam param → Lacks b';' (param_text param)
Lacks-param_text (key, []) p = p.key_in_part
Lacks-param_text (key, c ∷ value) p = All-append _ key _ p.key_in_part (refl, p.value_in_part)

-- The parts of a text in front of printed parameters.
split-print_params :
    (a : Bytes) (params : Dict Bytes)
    → Lacks b';' a
    → All IsParam params
    → split b';' (a ++ print_params params) ≡ (a, map param_text params)
unfolding print_params
split-print_params a [] h all = ap (split b';') (append-nil a) ∙ split_lacking b';' a h
split-print_params a (param ∷ params) h all =
    ap (λ s. split b';' (a ++ s)) (print_params-cons param params)
    ∙ split-append b';' a (param_text param ++ print_params params) h
    ∙ ap (λ (parts : Bytes × List Bytes). (a, all_parts parts))
        (split-print_params (param_text param) params (Lacks-param_text param all.0) all.1)

add_param-param_text :
    (param : Bytes × Bytes) (params : Dict Bytes)
    → IsParam param
    → add_param (param_text param) params ≡ insert param.0 param.1 params
unfolding add_param
add_param-param_text (key, []) params p =
    rw (add_param, cut_lacking b'=' key p.key_lacks_equals, p.key_kept) refl
add_param-param_text (key, c ∷ value) params p =
    rw (add_param, cut-append b'=' key (c ∷ value) p.key_lacks_equals, p.key_kept, p.value_kept)
      refl

parse_params-printed :
    (params before : Dict Bytes)
    → All IsParam params
    → AreNew before params
    → parse_params (map param_text params) before ≡ before ++ params
unfolding parse_params
parse_params-printed [] before h new = sym (append-nil before)
parse_params-printed ((key, value) ∷ params) before h new =
    ap (parse_params (map param_text params))
      (add_param-param_text (key, value) before h.0 ∙ insert-append key value before new.0)
    ∙ parse_params-printed params (before ++ (key, value) ∷ []) h.1 new.1
    ∙ append_assoc before ((key, value) ∷ []) params

abbrev host_port : Bytes → Bytes → Bytes
host_port host [] = host
host_port host (c ∷ port) = host ++ (b':' ∷ c ∷ port)

split_host_port-host_port :
    (host port : Bytes) → Lacks b':' host → split_host_port (host_port host port) ≡ (host, port)
unfolding split_host_port
split_host_port-host_port host [] h = rw (split_host_port, cut_lacking b':' host h) refl
split_host_port-host_port host (c ∷ port) h =
    rw (split_host_port, cut-append b':' host (c ∷ port) h) refl

abbrev main_part : Bytes → Bytes → Bytes
main_part [] rest = rest
main_part (c ∷ user) rest = (c ∷ user) ++ (b'@' ∷ rest)

split_user-main_part :
    (user rest : Bytes)
    → Lacks b'@' user
    → Lacks b'@' rest
    → split_user (main_part user rest) ≡ (user, rest)
unfolding split_user
split_user-main_part [] rest hu h = rw (split_user, cut_lacking b'@' rest h) refl
split_user-main_part (c ∷ user) rest hu h = rw (split_user, cut-append b'@' (c ∷ user) rest hu) refl

-- What `String` writes, by its parts.
printed : SipUri → Bytes
printed u =
    u.scheme ++ (b':' ∷ (main_part u.user (host_port u.host u.port) ++ print_params u.params))

host_port-append :
    (host port rest : Bytes)
    → host ++ ((if is_nil port then [] else b':' ∷ port) ++ rest) ≡ host_port host port ++ rest
host_port-append host [] rest = refl
host_port-append host (c ∷ port) rest = sym (append_assoc host (b':' ∷ c ∷ port) rest)

main_part-append :
    (user middle rest : Bytes)
    → (if is_nil user then [] else user ++ b'@' ∷ []) ++ (middle ++ rest)
      ≡ main_part user middle ++ rest
main_part-append [] middle rest = refl
main_part-append (c ∷ user) middle rest =
    append_assoc (c ∷ user) (b'@' ∷ []) (middle ++ rest)
    ∙ sym (append_assoc (c ∷ user) (b'@' ∷ middle) rest)

print_uri-printed : (u : SipUri) → print_uri u ≡ printed u
unfolding print_uri printed
print_uri-printed u =
    ap (λ s. u.scheme ++ (b':' ∷ s))
      (ap (λ s. (if is_nil u.user then [] else u.user ++ b'@' ∷ []) ++ s)
          (host_port-append u.host u.port (print_params u.params))
        ∙ main_part-append u.user (host_port u.host u.port) (print_params u.params))

All-host_port :
    (P : ℕ → Type 0) (host port : Bytes)
    → All P host
    → P b':'
    → All P port
    → All P (host_port host port)
All-host_port P host [] h colon hp = h
All-host_port P host (c ∷ port) h colon hp = All-append P host (b':' ∷ c ∷ port) h (colon, hp)

All-main_part :
    (P : ℕ → Type 0) (user rest : Bytes)
    → All P user
    → P b'@'
    → All P rest
    → All P (main_part user rest)
All-main_part P [] rest h at hr = hr
All-main_part P (c ∷ user) rest h at hr = All-append P (c ∷ user) (b'@' ∷ rest) h (at, hr)

IsPlain-print_params : (params : Dict Bytes) → All IsParam params → IsPlain (print_params params)
unfolding print_params
IsPlain-print_params [] h = tt
IsPlain-print_params ((key, []) ∷ params) h =
    (refl, All-append _ key _ h.0.plain.0 (IsPlain-print_params params h.1))
IsPlain-print_params ((key, c ∷ value) ∷ params) h = (
  refl,
  All-append _ key _ h.0.plain.0
      (refl, All-append _ (c ∷ value) _ h.0.plain.1 (IsPlain-print_params params h.1)),
)

IsPlain-printed : (u : SipUri) → IsUri u → IsPlain (printed u)
unfolding printed
IsPlain-printed u p = All-append _ u.scheme _ p.scheme_part.1 (
  refl,
  All-append _ (main_part u.user (host_port u.host u.port)) _
      (All-main_part _ u.user (host_port u.host u.port) p.user_part.2 refl
        (All-host_port _ u.host u.port p.host_part.3 refl p.port_part.2))
      (IsPlain-print_params u.params p.params_kept),
)

trim_left-plain : (s : Bytes) → IsPlain s → trim_left is_angle s ≡ s
unfolding trim_left
trim_left-plain [] h = refl
trim_left-plain (c ∷ s) h = rw (trim_left, h.0) refl

trim_right-plain : (s : Bytes) → IsPlain s → trim_right is_angle s ≡ s
unfolding trim_right
trim_right-plain [] h = refl
trim_right-plain (c ∷ s) h = rw (trim_right, h.0, trim_right-plain s h.1) refl

trim-plain : (s : Bytes) → IsPlain s → trim is_angle s ≡ s
unfolding trim
trim-plain s h = ap (trim_right is_angle) (trim_left-plain s h) ∙ trim_right-plain s h

build_uri-parts :
    (u : SipUri) (rest : Bytes × List Bytes)
    → rest ≡ (main_part u.user (host_port u.host u.port), map param_text u.params)
    → IsUri u
    → build_uri u.scheme rest ≡ ok u
unfolding build_uri
build_uri-parts u rest e p =
    rw
      (
        e,
        build_uri,
        split_user-main_part u.user (host_port u.host u.port) p.user_part.0
            (All-host_port _ u.host u.port p.host_part.0 refl p.port_part.0),
        split_host_port-host_port u.host u.port p.host_part.1,
        p.has_host,
        parse_params-printed u.params [] p.params_kept p.distinct,
      )
      refl

parse_sip_uri-parts :
    (text uri scheme remaining : Bytes) (outcome : Result SipUri)
    → trim is_angle text ≡ uri
    → cut (b':' ∷ []) uri ≡ some (scheme, remaining)
    → build_uri scheme (split b';' remaining) ≡ outcome
    → parse_sip_uri text ≡ outcome
unfolding parse_sip_uri
parse_sip_uri-parts text uri scheme remaining outcome trimmed cut_ built =
    rw (parse_sip_uri, trimmed, cut_, built) refl

parse-printed :
    (text : Bytes) (u : SipUri)
    → IsUri u
    → trim is_angle text ≡ printed u
    → parse_sip_uri text ≡ ok u
unfolding printed
parse-printed text u p trimmed =
    let main = main_part u.user (host_port u.host u.port) in
    let remaining = main ++ print_params u.params in
    parse_sip_uri-parts text (printed u) u.scheme remaining (ok u) trimmed
      (cut-append b':' u.scheme remaining p.scheme_part.0)
      (build_uri-parts u (split b';' remaining)
        (split-print_params main u.params
          (All-main_part _ u.user (host_port u.host u.port) p.user_part.1 refl
            (All-host_port _ u.host u.port p.host_part.2 refl p.port_part.1))
          p.params_kept)
        p)

trim_right-close : (s : Bytes) → IsPlain s → trim_right is_angle (s ++ b'>' ∷ []) ≡ s
unfolding trim_right
trim_right-close [] h = refl
trim_right-close (c ∷ s) h = rw (trim_right, h.0, trim_right-close s h.1) refl

trim_left-closed :
    (s : Bytes)
    → IsPlain s
    → is_nil s ≡ false
    → trim_left is_angle (b'<' ∷ (s ++ b'>' ∷ [])) ≡ s ++ b'>' ∷ []
unfolding trim_left
trim_left-closed [] h e = absurd (ground arith)
trim_left-closed (c ∷ s) h e = rw (trim_left, h.0) refl

-- A URI whose scheme holds no colon, whose user and port hold no `@` and no semicolon, whose host is
-- not empty and holds neither of these nor a colon, and whose parameters have keys in lower case,
-- different from each other and without `=`, and keys and values without semicolon and without white
-- space at their ends, all of it without angle brackets, is parsed back from its printed form, by
-- itself and within angle brackets.
pub parse-print_uri :
    (u : SipUri)
    → IsUri u
    → (parse_sip_uri (print_uri u) ≡ ok u)
      × (parse_sip_uri (b'<' ∷ (print_uri u ++ b'>' ∷ [])) ≡ ok u)
unfolding trim
parse-print_uri u p =
    let plain = IsPlain-printed u p in
    (
      parse-printed (print_uri u) u p
          (ap (trim is_angle) (print_uri-printed u) ∙ trim-plain (printed u) plain),
      parse-printed (b'<' ∷ (print_uri u ++ b'>' ∷ [])) u p (
          ap (λ s. trim is_angle (b'<' ∷ (s ++ b'>' ∷ []))) (print_uri-printed u)
          ∙ ap (trim_right is_angle) (trim_left-closed (printed u) plain (nonempty u))
          ∙ trim_right-close (printed u) plain),
    )
  where
    with_colon : (s rest : Bytes) → is_nil (s ++ (b':' ∷ rest)) ≡ false
    with_colon [] rest = refl
    with_colon (c ∷ s) rest = refl

    nonempty : (u : SipUri) → is_nil (printed u) ≡ false
    nonempty u =
        unfold printed in
        with_colon u.scheme (main_part u.user (host_port u.host u.port) ++ print_params u.params)
