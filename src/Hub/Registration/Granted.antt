-- ===== src/Hub/Registration/Granted.antt =====
-- Which rights a registration with sdk-python/intermesh/hub.py is granted.
use intermesh.Prelude.{
  ℕ, Text, codes, ◌≡◌, ◌≢◌, ◌⊎◌, true, false, none, some, [], ◌∷◌, ◌++◌, text_eq,
}
use intermesh.Prelude.Json.{Json, Fields, str}
use intermesh.Assurance.Evidence.Verify.{is_falsy}
use intermesh.Prelude.Exec.{ok, err}
use intermesh.Prelude.Results.{get}
use intermesh.ApiKeys.{ApiKeyStore, KeyInfo, lookup_key}
use intermesh.Hub.{Env}
use intermesh.Hub.Escrowed.{text_member}
use intermesh.Hub.Registration.{
  unknown_key, bad_key, key_required, text_default, list_default, texts_member,
  registration_refusal, grant_of,
}

-- The address of a connection is one of this machine.
abbrev pub IsLocal : Env → ℕ → Type 0
IsLocal env ws =
    (host : Text) × (env.remote_host ws ≡ some host)
    × ((host ≡ codes "127.0.0.1")
        ⊎ (host ≡ codes "::1")
        ⊎ (host ≡ codes "localhost")
        ⊎ ((rest : Text) × (host ≡ codes "127." ++ rest)))

-- An agent without a key may declare its rights.
abbrev pub MayDeclare : Env → ℕ → Type 0
MayDeclare env ws =
    (env.require_api_key ≡ false) × (IsLocal env ws ⊎ (env.allow_self_declared ≡ true))

-- How the rights of a registration come out, by the member `api_key` that it presents.
abbrev pub IsGranted : Env → ℕ → Text → Fields → ApiKeyStore → Type 0
IsGranted env ws my_org d keys =
    let key = get (codes "api_key") d in
    let given = grant_of env ws my_org d keys in
    ((t : Text) × (key ≡ some (str t))
      × (t ≢ [])
      × (((lookup_key env.hash_key t keys ≡ none) × (given ≡ err unknown_key))
          ⊎ ((i : KeyInfo) × (lookup_key env.hash_key t keys ≡ some i)
              × (given
                  ≡ ok (record {
                    org_id = i.org_id;
                    roles = i.roles;
                    permissions = i.permissions;
                    auth_method = codes "api_key";
                  })))))
    ⊎ ((j : Json) × (key ≡ some j) × (is_falsy j ≡ false) × (given ≡ err bad_key))
    ⊎ (((key ≡ none) ⊎ ((j : Json) × (key ≡ some j) × (is_falsy j ≡ true)))
        × (((why : Text) × (registration_refusal env ws none ≡ some why)
              × (given ≡ err (key_required why)))
            ⊎ (MayDeclare env ws
                × (given
                    ≡ ok (record {
                      org_id = text_default my_org (text_member (get (codes "org_id") d));
                      roles =
                          list_default (codes "standard" ∷ [])
                            (texts_member (get (codes "roles") d));
                      permissions = list_default [] (texts_member (get (codes "permissions") d));
                      auth_method = codes "self_declared";
                    })))))
