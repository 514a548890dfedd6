-- ===== src/Registration/Gate.antt =====
-- The pairing gate: what it takes for a registration to go on.
use elab_core.Prelude.{
  String, ◌≡◌, refl, ap, Bool, true, false, Option, none, some, ◌==◌, ◌||◌, is_some, arith, eq_iff,
  Bool-cases, inl, inr, ◌⊎◌,
}
use elab_core.Manifest.{Manifest, resolve_device_id, resolve_device_anchor}
use elab_core.ConfigStore.{approved}
use elab_core.State.{State, emit}
use elab_core.Registration.Request.{
  Env, Paired, credential_of, with_store, open_credential, approve_device, open_and_try_token, park,
  Verdict, parked, cleared, is_approved, is_revoked, conclude, require_pairing, authenticate,
}
use elab_core.Registration.Attempt.{fresh, Outcome, open_and_try_token_lem}

-- Parking a registration touches neither the registry nor a credential.
park_fields :
    (env : Env) (sid d : String) (m : Manifest) (hash : String) (ip : Option String) (s : State)
    → (park env sid d m hash ip s).registry ≡ s.registry
unfolding park emit
park_fields env sid d m hash ip s = refl

open_and_try_token-registry :
    (env : Env) (e : Bool) (d hash : String) (ip token : Option String) (s : State)
    → (open_and_try_token env e d hash ip token s).0.registry ≡ s.registry
unfolding open_and_try_token open_credential approve_device with_store
open_and_try_token-registry env true d hash ip token s = ground arith
open_and_try_token-registry env false d hash ip token s = ground arith

-- `authenticate` never changes the registry.
pub registry-authenticate :
    (env : Env) (sid : String) (m : Manifest) (hash : String) (ip : Option String) (required : Bool)
    (token : Option String) (s : State)
    → (authenticate env sid m hash ip required token s).0.registry ≡ s.registry
unfolding authenticate require_pairing conclude
registry-authenticate env sid m hash ip required token s =
    let e = resolve_device_anchor m == "ephemeral" in
    let d = resolve_device_id m in
    let tried = (open_and_try_token env e d hash ip token s).0 in
    ground (
      arith,
      park_fields env sid d m hash ip s,
      park_fields env sid d m hash ip tried,
      open_and_try_token-registry env e d hash ip token s,
    )

-- The registration goes on with an approved credential for this very manifest, which is the one
-- that the dispatcher holds; a secret is handed out only if it is that credential's.
pub record IsCleared (hash d : String) (e : Bool) (s : State) (v : Verdict) : Type 0 where
  pub credential : Paired
  pub issued : Option String
  pub verdict : v ≡ cleared (some credential) issued
  pub status : credential.status ≡ approved
  pub hash_eq : credential.manifest_hash ≡ hash
  pub held : credential_of e d s ≡ some credential
  pub secret : (issued ≡ none) ⊎ (issued ≡ some credential.secret_hex)

-- The outcome of the pairing: the registration is parked, or it is cleared.
abbrev pub Decided : String → String → Bool → State × Verdict → Type 0
Decided hash d e r = (r.1 ≡ parked) ⊎ IsCleared hash d e r.0 r.1

is_approved_lem : (c : Paired) → is_approved (some c) ≡ true → c.status ≡ approved
unfolding is_approved
is_approved_lem c h = ground (arith, h)

module _ (env : Env) (sid d : String) (m : Manifest) (hash : String) (ip : Option String) where
  conclude_cases :
      (issued : Option String) (c : Option Paired) (s : State)
      → ((is_approved c ≡ true) × (conclude env sid d m hash ip c issued s ≡ (s, cleared c issued)))
        ⊎ ((conclude env sid d m hash ip c issued s).1 ≡ parked)
  unfolding conclude
  conclude_cases issued c s = elim (Bool-cases (is_approved c)) [
    | inl ok ↦ inl (ok, ground (arith, ok))
    | inr bad ↦ inr (ground (arith, bad))
  ]

  conclude_lem :
      (e : Bool) (c : Paired) (o : Option Paired) (issued : Option String) (s : State)
      → o ≡ some c
      → credential_of e d s ≡ some c
      → c.manifest_hash ≡ hash
      → ((issued ≡ none) ⊎ (issued ≡ some c.secret_hex))
      → Decided hash d e (conclude env sid d m hash ip o issued s)
  conclude_lem e c o issued s p f h i = elim (conclude_cases issued o s) [
    | inl (ok, q) ↦ rw q (
        inr (record {
          credential = c;
          issued = issued;
          verdict = ap (λ x. cleared x issued) p;
          status = is_approved_lem c (rw (← p) ok);
          hash_eq = h;
          held = f;
          secret = i;
        }))
    | inr q ↦ inl q
  ]

  conclude_afresh :
      (e : Bool) (issued : Option String) (s : State)
      → Outcome env hash (credential_of e d s) issued
      → Decided hash d e (conclude env sid d m hash ip (credential_of e d s) issued s)
  conclude_afresh e issued s w = elim w [
    | inl (f, i) ↦ conclude_lem e (fresh env hash) (credential_of e d s) issued s f f refl (inl i)
    | inr (f, i) ↦
        conclude_lem e (record (fresh env hash) { status = approved }) (credential_of e d s) issued
          s f f refl (inr i)
  ]

require_cases :
    (env : Env) (sid : String) (m : Manifest) (hash : String) (ip : Option String) (e : Bool)
    (token : Option String) (s : State) (o : Option Paired)
    → credential_of e (resolve_device_id m) s ≡ o
    → (is_some s.config_store || e) ≡ true
    → Decided hash (resolve_device_id m) e (require_pairing env sid m hash ip e token s)
unfolding require_pairing
require_cases env sid m hash ip e token s none f h =
    let d = resolve_device_id m in
    let (t, issued) = open_and_try_token env e d hash ip token s in
    rw (f, require_pairing)
      (conclude_afresh env sid d m hash ip e issued t
        (open_and_try_token_lem env e d hash ip token s h (inl f)))
require_cases env sid m hash ip e token s (some c) f h =
    let d = resolve_device_id m in
    let (t, issued) = open_and_try_token env e d hash ip token s in
    elim (Bool-cases (is_revoked c)) [
      | inl gone ↦ rw (f, gone, require_pairing) (inl refl)
      | inr live ↦ elim (Bool-cases (c.manifest_hash == hash)) [
        | inl same ↦
            rw (f, live, same, require_pairing)
              (conclude_lem env sid d m hash ip e c (some c) none s refl f
                ((eq_iff c.manifest_hash hash).0 same) (inl refl))
        | inr other ↦
            rw (f, live, other, require_pairing)
              (conclude_afresh env sid d m hash ip e issued t
                (open_and_try_token_lem env e d hash ip token s h (inr (c, f, other))))
      ]
    ]

-- Where pairing is required and credentials can be kept, a registration is parked, or it goes on
-- with a credential that the dispatcher holds for the device, approved, and for the hash of this
-- manifest; a secret is handed out only if it is that credential's.
pub authenticate-Decided :
    (env : Env) (sid : String) (m : Manifest) (hash : String) (ip token : Option String) (s : State)
    → (is_some s.config_store || resolve_device_anchor m == "ephemeral") ≡ true
    → Decided hash
        (resolve_device_id m)
        (resolve_device_anchor m == "ephemeral")
        (authenticate env sid m hash ip true token s)
unfolding authenticate
authenticate-Decided env sid m hash ip token s h =
    rw (h, authenticate)
      (require_cases env sid m hash ip (resolve_device_anchor m == "ephemeral") token s _ refl h)
