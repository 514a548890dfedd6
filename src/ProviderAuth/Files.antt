-- ===== src/ProviderAuth/Files.antt =====
-- The secret of a device from one run of the client to the next.
use elab_core.Prelude.{String, ◌≤◌, ◌≡◌, true, false, some, arith, eq_iff}
use elab_core.Prelude.Dict.{set, get-set, get-pop}
use elab_core.ProviderAuth.{
  Machine, ProviderAuth, Files, credential_path, accept_secret, load_secret, init, save_secret,
  forget, on_approved, on_revoked, has_secret,
}

-- Where files can be read and written and a credential can be read back from its text, a client that
-- starts after an approval has the secret and counts as approved, if the secret has at least 32
-- characters and the approved client kept its credentials; and a client that starts after a
-- revocation, where files can be deleted, has none.
pub secret_survives :
    (m : Machine) (a : ProviderAuth) (files : Files) (secret : String)
    → m.can_read ≡ true
    → m.can_write ≡ true
    → m.can_delete ≡ true
    → m.loads (m.dumps a.device_id secret) ≡ some secret
    → a.persist ≡ true
    → 32 ≤ m.len secret
    → let (a₁, files₁) = on_approved m (some secret) a files in
      let (a₂, files₂) = on_revoked m a₁ files₁ in
      (init m files₁ a.device_id true ≡ a₁) × (has_secret (init m files₂ a.device_id true) ≡ false)
unfolding init load_secret accept_secret on_approved on_revoked forget save_secret has_secret
secret_survives m a files secret reads writes deletes reads_back kept long =
    let path = credential_path m a.device_id in
    let text = m.dumps a.device_id secret in
    (
      ground (
        arith,
        reads,
        writes,
        reads_back,
        kept,
        long,
        get-set files path text path,
        eq_iff path path,
      ),
      ground
          (arith, writes, deletes, kept, get-pop (set files path text) path path, eq_iff path path),
    )
