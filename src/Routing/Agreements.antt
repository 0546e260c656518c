-- ===== src/Routing/Agreements.antt =====
-- The routing policy of sdk-python/intermesh/policy.py against the agreements that were made.
use intermesh.Prelude.{
  Text, ◌≡◌, refl, inl, inr, Bool, true, false, not, ◌&&◌, ◌||◌, List, [], ◌∷◌, nat_beq, contains,
  ◌==◌, text_eq, text_beq_iff, if◌then◌else◌, Bool-cases, arith,
}
use mathlib.Core.List.{append_assoc}
use intermesh.Routing.{
  Enforcer, connection, discard, allow_cross_tenant_connection, revoke_cross_tenant_connection,
  can_route,
}

contains-discard :
    (j k : Text) (ks : List Text)
    → contains j (discard k ks) ≡ (if j == k then false else contains j ks)
unfolding discard
contains-discard j k [] = ground arith
contains-discard j k (i ∷ ks) = ground (
  arith,
  text_beq_iff i k,
  text_beq_iff j k,
  text_beq_iff j i,
  text_beq_iff i j,
  contains-discard j k ks,
)

-- The name has no `>`.
unfoldable pub plain : Text → Bool
plain [] = true
plain (c ∷ s) = not (nat_beq c 62) && plain s

connection_left :
    (a c b d : Text)
    → plain a ≡ true
    → plain c ≡ true
    → connection a b ≡ connection c d
    → (a ≡ c) × (b ≡ d)
unfolding plain connection
connection_left [] [] b d h k e = ground arith
connection_left [] (x ∷ []) b d h k e = ground arith
connection_left [] (x ∷ y ∷ c) b d h k e = ground arith
connection_left (x ∷ []) [] b d h k e = ground arith
connection_left (x ∷ y ∷ a) [] b d h k e = ground arith
connection_left (x ∷ a) (y ∷ c) b d h k e =
    let r = connection_left a c b d (ground arith) (ground arith) (ground arith) in ground arith

pub data Call : Type 0 where
  allows revokes : Text → Text → Call

pub step : Enforcer → Call → Enforcer
step e (allows from_org to_org) = allow_cross_tenant_connection from_org to_org e
step e (revokes from_org to_org) = revoke_cross_tenant_connection from_org to_org e

pub run : Enforcer → List Call → Enforcer
run e [] = e
run e (c ∷ cs) = run (step e c) cs

unfoldable pub plain_call : Call → Bool
plain_call (allows from_org to_org) = plain from_org
plain_call (revokes from_org to_org) = plain from_org

unfoldable pub plain_calls : List Call → Bool
plain_calls [] = true
plain_calls (c ∷ cs) = plain_call c && plain_calls cs

-- What one call makes of the agreement between two organisations: only a call on these two, in this
-- direction, changes it.
unfoldable pub agree : Text → Text → Call → Bool → Bool
agree a b (allows c d) before = if a == c && b == d then true else before
agree a b (revokes c d) before = if a == c && b == d then false else before

-- Whether the two have an agreement after the calls, if they had one before as given.
unfoldable pub agreed : Text → Text → List Call → Bool → Bool
agreed a b [] before = before
agreed a b (c ∷ cs) before = agreed a b cs (agree a b c before)

connection_same :
    (a c b d : Text)
    → plain a ≡ true
    → plain c ≡ true
    → (connection a b == connection c d) ≡ (a == c && b == d)
connection_same a c b d h k = elim (Bool-cases (connection a b == connection c d)) [
  | inl e ↦
      let (left, right) =
        connection_left a c b d h k ((text_beq_iff (connection a b) (connection c d)).0 e) in
      ground (arith, text_beq_iff a c, text_beq_iff b d)
  | inr e ↦ elim (Bool-cases (a == c && b == d)) [
    | inl f ↦
        let left : a ≡ c = ground (arith, text_beq_iff a c) in
        let right : b ≡ d = ground (arith, text_beq_iff b d) in
        absurd (ground (arith, text_beq_iff (connection a b) (connection c d)))
    | inr f ↦ ground arith
  ]
]

contains-step :
    (a b : Text) (e : Enforcer) (c : Call)
    → plain a ≡ true
    → plain_call c ≡ true
    → contains (connection a b) (step e c).allowed_connections
      ≡ agree a b c (contains (connection a b) e.allowed_connections)
unfolding step plain_call agree allow_cross_tenant_connection revoke_cross_tenant_connection
contains-step a b e (allows c d) h k =
    ground (arith, connection_same a c b d h k, text_beq_iff (connection a b) (connection c d))
contains-step a b e (revokes c d) h k = ground (
  arith,
  connection_same a c b d h k,
  contains-discard (connection a b) (connection c d) e.allowed_connections,
)

default-step :
    (e : Enforcer) (c : Call)
    → (step e c).allow_cross_tenant_by_default ≡ e.allow_cross_tenant_by_default
unfolding step allow_cross_tenant_connection revoke_cross_tenant_connection
default-step e (allows c d) = refl
default-step e (revokes c d) = refl

-- Where no sender's name has a `>`, one organisation may send to another after any calls exactly
-- if they are the same, or the default allows it, or the last call on this pair in this direction
-- allowed it, or there was none and the pair was allowed before: no call on another pair matters.
pub can_route-agreed :
    (a b : Text) (cs : List Call) (e : Enforcer)
    → plain a ≡ true
    → plain_calls cs ≡ true
    → can_route a b (run e cs) ≡ (
        a == b
        || e.allow_cross_tenant_by_default
        || agreed a b cs (contains (connection a b) e.allowed_connections))
unfolding can_route run agreed plain_calls
can_route-agreed a b [] e h k = ground arith
can_route-agreed a b (c ∷ cs) e h k = ground (
  arith,
  can_route-agreed a b cs (step e c) h (ground arith),
  contains-step a b e c h (ground arith),
  default-step e c,
)

-- With an arrow in a name the joined text is ambiguous: to allow an organisation to send to
-- `b->c` also lets the one called `a->b` send to `c`, which nobody allowed.
pub can_route_ambiguous :
    (a b c : Text) (e : Enforcer)
    → can_route (connection a b) c (allow_cross_tenant_connection a (connection b c) e) ≡ true
unfolding can_route allow_cross_tenant_connection connection
can_route_ambiguous a b c e =
    let same : connection (connection a b) c ≡ connection a (connection b c) =
      append_assoc a (45 ∷ 62 ∷ b) (45 ∷ 62 ∷ c) in
    ground (arith, text_beq_iff (connection a (connection b c)) (connection a (connection b c)))
