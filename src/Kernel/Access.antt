-- ===== src/Kernel/Access.antt =====
-- kernel.py: the signing key and its file, and what the kernel tells about itself.
use decision_os_min.Prelude.{
  ℕ, ◌≡◌, refl, sym, ◌∙◌, String, Bool, true, Option, none, some, nonempty, not, ap, inl, inr,
  Bool-cases, if◌then◌else◌,
}
use decision_os_min.Py.{Value, Dict}
use decision_os_min.Py.Exc.{Exc, Exn, ok, raise, ◌>>=◌, ok_inj}
use decision_os_min.Py.Runtime.{Runtime}
use decision_os_min.Py.Plugin.{Ran, unguarded}
use decision_os_min.AuthorityPdp.{CanonicalAuthorityResult, evaluate_authority}
use decision_os_min.AuthorityPdp.Builtin
use decision_os_min.Kernel.Fingerprint.{verify}
use decision_os_min.Kernel.State.{Kernel, Provider, pdp_of}
use decision_os_min.Kernel.Decide.{Moment, Request, Ruling, decide}
use decision_os_min.Kernel.Minting.{decide-verifies}

-- A private key that a PEM holds: an Ed25519 key, or one of another kind.
pub data PrivateKey : Type 0 where
  ed25519 : String → PrivateKey
  foreign : PrivateKey

-- The files of keys: whether a path is one, the private key that its PEM holds or the error where it
-- cannot be read as one, and the writing of an Ed25519 key's PEM, with its directory.
pub record KeyFiles : Type 1 where
  pub State : Type 0
  pub is_file : String → State → Bool
  pub load : String → State → Exc PrivateKey
  pub save : String → String → State → Exc (Unit {0}) × State

abbrev saved : {S : Type 0} → String → Exc (Unit {0}) × S → Exc String × S
saved key (ok done, s) = (ok key, s)
saved key (raise e, s) = (raise e, s)

-- the check of `isinstance`
unfoldable pub expected_ed25519 : PrivateKey → Exc String
expected_ed25519 (ed25519 key) = ok key
expected_ed25519 foreign = raise Exn.type_error

-- `load_or_create_signing_key`, at the key that it would generate
unfoldable pub load_or_create_signing_key :
    (F : KeyFiles) → Option String → String → F.State → Exc String × F.State
load_or_create_signing_key F none fresh s = (ok fresh, s)
load_or_create_signing_key F (some path) fresh s =
    if not (nonempty path)
    then (ok fresh, s)
    else if F.is_file path s
    then (F.load path s >>= expected_ed25519, s)
    else saved fresh (F.save path fresh s)

-- `public_key_hex`
unfoldable pub public_key_hex : Runtime → Kernel → String
public_key_hex R k = R.public_key k.key

-- `authority_provider`
unfoldable pub authority_provider : Runtime → ℕ → Kernel → Exc (Value × Value)
authority_provider R now k = do
  name ← unguarded (pdp_of R now k.provider).name
  revision ← unguarded (pdp_of R now k.provider).policy_revision
  ok (name, revision)

abbrev healthcheck_of : Runtime → Ran (Bool × String) → Provider → Exc (Bool × String)
healthcheck_of R remote (Provider.builtin b) = ok (true, Builtin.policy_revision R b)
healthcheck_of R remote (Provider.external p) = unguarded remote

-- `authority_healthcheck`, at the way in which that of a provider outside ends
unfoldable pub authority_healthcheck : Runtime → Ran (Bool × String) → Kernel → Exc (Bool × String)
authority_healthcheck R remote k = healthcheck_of R remote k.provider

-- `authority_ruling`
unfoldable pub authority_ruling : Runtime → ℕ → Kernel → Dict → Exc CanonicalAuthorityResult
authority_ruling R now k action =
    evaluate_authority R k.authority_timeout (pdp_of R now k.provider) action

-- What is relied on of a file of keys: a key that was written is there and is read back.
pub record KeepsKeys (F : KeyFiles) : Type 0 where
  pub is_there :
      (path key : String) (s : F.State)
      → (F.save path key s).0 ≡ ok tt
      → F.is_file path (F.save path key s).1 ≡ true
  pub is_same :
      (path key : String) (s : F.State)
      → (F.save path key s).0 ≡ ok tt
      → F.load path (F.save path key s).1 ≡ ok (ed25519 key)

saved-ok :
    {S : Type 0} (fresh key : String) (o : Exc (Unit {0}) × S)
    → (saved fresh o).0 ≡ ok key
    → (o.0 ≡ ok tt) × (fresh ≡ key) × ((saved fresh o).1 ≡ o.1)
saved-ok fresh key (ok tt, s) h = (refl, ok_inj h, refl)
saved-ok fresh key (raise e, s) h = absurd cc

-- On a file system that keeps keys, the key that a first start takes from a path, or makes there, is
-- the one that every later start takes from it, whatever key that would generate.
pub load_or_create-again :
    (F : KeyFiles) (path fresh later key : String) (s : F.State)
    → KeepsKeys F
    → nonempty path ≡ true
    → (load_or_create_signing_key F (some path) fresh s).0 ≡ ok key
    → load_or_create_signing_key F
        (some path)
        later
        (load_or_create_signing_key F (some path) fresh s).1
      ≡ (ok key, (load_or_create_signing_key F (some path) fresh s).1)
unfolding load_or_create_signing_key expected_ed25519
load_or_create-again F path fresh later key s K named h = elim (Bool-cases (F.is_file path s)) [
  | inl e ↦ rw (named, e) (rw e (ap (λ x. (x, s)) (rw (named, e) at h)))
  | inr e ↦
      let (done, same, state) = saved-ok fresh key (F.save path fresh s) (rw (named, e) at h) in
      rw (named, e, state, K.is_there path fresh s done, K.is_same path fresh s done, same) refl
]

-- Where the files keep keys and the signature scheme is correct, a ruling of a kernel whose key came
-- from a named file verifies under the public key of every kernel that is next started from that
-- file, whatever key that start would generate.
pub decide-verifies_later :
    (F : KeyFiles) (R : Runtime) (path fresh later : String) (s : F.State) (k k' : Kernel)
    (m : Moment) (q : Request) (action : Dict) (ruling : Ruling)
    → KeepsKeys F
    → ((key text : String) → R.verify_signature (R.public_key key) (R.sign key text) text ≡ true)
    → nonempty path ≡ true
    → (load_or_create_signing_key F (some path) fresh s).0 ≡ ok k.key
    → (load_or_create_signing_key F
        (some path)
        later
        (load_or_create_signing_key F (some path) fresh s).1).0
      ≡ ok k'.key
    → decide R k m q action ≡ ok ruling
    → verify R ruling.decision ruling.signature (public_key_hex R k') ≡ true
unfolding public_key_hex
decide-verifies_later F R path fresh later s k k' m q action ruling K correct named first again h =
    let one : k.key ≡ k'.key = ok_inj (
      sym (ap (λ x. x.0) (load_or_create-again F path fresh later k.key s K named first))
      ∙ again) in
    rw (← one) (decide-verifies R k m q action ruling correct h)
