-- ===== src/Web/Users/Accepted.antt =====
-- A user that the form created, at the registrar.
use xylitol.Base.{
  Bool, true, false, List, some, if◌then◌else◌, Bytes, codes, ◌&&◌, [], ◌∷◌, ◌++◌, equal, Result,
  ok, err, panic, ◌≡◌, refl, ap, arith, is_nil,
}
use xylitol.Dict.{Dict}
use xylitol.Sip.Message.{SipRequest}
use xylitol.Server.Nonces.{validate_nonce}
use xylitol.Server.Registrar.{
  Services, Draw, Registrar, Credentials, User, credentials, digest_matches, handle_register,
  accept, unauthorized, calculate_response,
}
use xylitol.Storage.{Database, select_from_users, find_user, add_user}
use xylitol.Storage.Laws.{find_user-add_user}
use xylitol.Web.{HttpRequest, redirect, form_value}
use xylitol.Web.Users.{ha1_hash, added_answer, create_user, handle_users_new_submit}

-- The request digest of RFC 2069, which RFC 2617 (3.2.2.1) keeps for a client that sends no quality
-- of protection. The challenge of the registrar offers `qop="auth"`; a client that takes this up
-- computes another digest, over the nonce count and a nonce of its own, too.
unfoldable pub request_digest :
    (Bytes → Bytes) → Bytes → Bytes → Bytes → Bytes → Bytes → Bytes → Bytes
request_digest md5 username realm password nonce method uri =
    let ha1 = md5 (username ++ (b':' ∷ (realm ++ (b':' ∷ password)))) in
    let ha2 = md5 (method ++ (b':' ∷ uri)) in md5 (ha1 ++ (b':' ∷ (nonce ++ (b':' ∷ ha2))))

credentials-nonempty :
    (auth : Dict Bytes) (c : Credentials) → credentials auth ≡ some c → is_nil auth ≡ false
unfolding credentials
credentials-nonempty [] c h = cc
credentials-nonempty (entry ∷ auth) c h = refl

handle_register-credentials :
    (services : Services) (draw : Draw) (req : SipRequest) (r : Registrar) (c : Credentials)
    (matches : Bool)
    → credentials req.authorization ≡ some c
    → digest_matches services req c ≡ matches
    → handle_register services draw req r ≡ (
        let (fresh, nonces) = validate_nonce draw.now c.nonce r.nonces in
        if fresh && matches
        then accept draw req (record r { nonces = nonces })
        else ok (unauthorized draw req (record r { nonces = nonces })))
unfolding handle_register
handle_register-credentials services draw req r c matches given e =
    rw (handle_register, credentials-nonempty req.authorization c given, given, e) refl

module _ (sql : Database) (md5 : Bytes → Bytes) where
  open sql use {Db, prepares}

  -- The registrar's services on the tables of the web interface.
  abbrev services : Db → Services
  services db = record { md5hash = md5; get_user_by_username = find_user sql db }

  added_answer-redirect :
      (outcome : Result User)
      → added_answer sql outcome ≡ redirect (codes "/users")
      → (added : User) × (outcome ≡ ok added)
  unfolding added_answer
  added_answer-redirect (ok added) h = (added, refl)
  added_answer-redirect (err reason) h = cc
  added_answer-redirect panic h = cc

  abbrev stored_user : Bytes → Bytes → Bytes → User
  stored_user realm username password = record {
    id = 0;
    username = username;
    password = ha1_hash md5 username realm password;
  }

  create_user-ok :
      (realm username password : Bytes) (db db' : Db)
      → create_user sql md5 realm username password db ≡ (redirect (codes "/users"), db')
      → (added : User) × (add_user sql (stored_user realm username password) db ≡ (ok added, db'))
  unfolding create_user
  create_user-ok realm username password db db' h =
      let (added, e) = added_answer-redirect _ (ap (λ r. r.0) h) in (added, cc)

  digest_matches-added :
      (realm username password : Bytes) (added : User) (db db' : Db) (req : SipRequest)
      (c : Credentials)
      → add_user sql (stored_user realm username password) db ≡ (ok added, db')
      → prepares select_from_users db' ≡ true
      → c.username ≡ username
      → digest_matches (services db') req c
        ≡ equal c.response (request_digest md5 c.username realm password c.nonce req.method c.uri)
  unfolding digest_matches request_digest ha1_hash
  digest_matches-added realm username password added db db' req c h p named =
      let (kept, there, _, hash) = find_user-add_user sql _ added db db' h p in
      rw (digest_matches, named, there, hash, calculate_response) refl

  submit-ok :
      (realm : Bytes) (r : HttpRequest) (form : Dict (List Bytes)) (db db' : Db)
      → r.form ≡ some form
      → handle_users_new_submit sql md5 realm r db ≡ (redirect (codes "/users"), db')
      → create_user sql md5 realm
          (form_value (codes "username") form)
          (form_value (codes "password") form)
          db
        ≡ (redirect (codes "/users"), db')
  unfolding handle_users_new_submit
  submit-ok realm r form db db' f h = ground arith

  -- Behind a successful submission of the form of a new user, the registrar decides on a REGISTER
  -- of that user by the digest without a quality of protection (RFC 2069) over the name, the realm
  -- and the password of the form:
  -- with all four Digest parameters there and the look-up prepared, it accepts the request where
  -- the nonce is valid and the response is that digest, and challenges it otherwise.
  pub created_user_registers :
      (realm : Bytes) (r : HttpRequest) (form : Dict (List Bytes)) (db db' : Db)
      → r.form ≡ some form
      → handle_users_new_submit sql md5 realm r db ≡ (redirect (codes "/users"), db')
      → prepares select_from_users db' ≡ true
      → (draw : Draw) (req : SipRequest) (registrar : Registrar) (c : Credentials)
      → credentials req.authorization ≡ some c
      → c.username ≡ form_value (codes "username") form
      → handle_register (services db') draw req registrar ≡ (
          let (fresh, nonces) = validate_nonce draw.now c.nonce registrar.nonces in
          let registrar' = record registrar { nonces = nonces } in
          let password = form_value (codes "password") form in
          if fresh
            && equal c.response
                (request_digest md5 c.username realm password c.nonce req.method c.uri)
          then accept draw req registrar'
          else ok (unauthorized draw req registrar'))
  created_user_registers realm r form db db' f h p draw req registrar c given named =
      let (added, stored) = create_user-ok realm _ _ db db' (submit-ok realm r form db db' f h) in
      let matches = digest_matches-added realm _ _ added db db' req c stored p named in
      handle_register-credentials (services db') draw req registrar c _ given matches
