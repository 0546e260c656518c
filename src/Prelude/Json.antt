-- ===== src/Prelude/Json.antt =====
-- The values that Python's `json` module reads and writes. A float is held by its literal.
use native.Mathlib.Decide.{ℕ_discrete}
use intermesh.Prelude.Tests.{Text}
use intermesh.Prelude.Int.{ℤ}
use mathlib.Core.Bool.{Bool}

mutual
  pub data Json : Type 0 where
    null : Json
    bool : Bool → Json
    int : ℤ → Json
    float : Text → Json
    str : Text → Json
    arr : Items → Json
    obj : Fields → Json

  pub data Items : Type 0 where
    nil : Items
    cons : Json → Items → Items

  pub data Fields : Type 0 where
    end : Fields
    field : Text → Json → Fields → Fields

pub ℤ-discrete : Discrete ℤ
ℤ-discrete = hlevel ℕ_discrete

pub Json-discrete : Discrete Json
Json-discrete = hlevel ℕ_discrete
