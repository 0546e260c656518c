-- ===== src/Assurance/Approval/Tests.antt =====
-- An approval that is granted and used, and the theorems of this component at it.
use intermesh.Payments.Price.{to_upper}
use intermesh.Prelude.{text_eq, text_beq, codes, ◌≡◌, refl, none, [], ◌∷◌}
use intermesh.Prelude.Dict.{lookup, insert}
use intermesh.Prelude.Exec.{err}
use intermesh.Assurance.Approval.{already_used, other_action, Store, grant, consume}
use intermesh.Assurance.Approval.Single.{grants, none_regrants, regrants, run, consumed_once}

abbrev granted : Store
unfolding grant
granted = (grant 5 (codes "a") (codes "post") (codes "/x") (codes "bob") 100 []).1

consumed_other :
    (consume 7 (codes "a") (codes "DELETE") (codes "/x") none granted).0 ≡ err other_action
unfolding consume lookup granted insert text_beq to_upper
consumed_other = refl

consumed_once_example :
    let later =
      run
        (consume 7 (codes "a") (codes "POST") (codes "/x") none granted).1
        (grants 8 (codes "b") (codes "GET") (codes "/y") (codes "eve") 5 ∷ []) in
    consume 9 (codes "a") (codes "POST") (codes "/x") none later ≡ (err already_used, later)
unfolding none_regrants regrants consume lookup granted insert text_beq to_upper
consumed_once_example =
    consumed_once 7 (codes "a") (codes "POST") (codes "/x") none granted refl
      (grants 8 (codes "b") (codes "GET") (codes "/y") (codes "eve") 5 ∷ []) refl 9 (codes "POST")
      (codes "/x") none
