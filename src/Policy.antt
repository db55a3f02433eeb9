-- ===== src/Policy.antt =====
-- src/policy.h and src/policy.cpp: BIP-388 wallet policies. The text of a policy and of its keys is
-- parsed here; Bitcoin Core parses the descriptor that the references expand to.
pub mod KeyText
pub mod Template
pub mod Build
pub mod Owner
pub mod Positions
pub mod Standard
pub mod Tests
use thunderden.Base.{ℕ, Bool, List, Bytes}
use thunderden.Core.{Core}

pub record Position : Type 0 where
  pub branch : ℕ
  pub index : ℕ

-- `key` counts the policy's keys; `receive` and `change` are the branch numbers of its two paths.
pub record Reference : Type 0 where
  pub key : ℕ
  pub receive : ℕ
  pub change : ℕ

module _ (core : Core) where
  pub record KeyInfo : Type 0 where
    pub text : Bytes
    pub key : core.ExtPubKey
    pub fingerprint : Bytes
    pub origin : List ℕ
    pub has_origin : Bool

  pub record Policy : Type 0 where
    pub name : Bytes
    pub text : Bytes
    pub public_text : Bytes
    pub keys : List (KeyInfo)
    pub references : List Reference
    pub descriptors : List core.Descriptor
    pub mainnet : Bool
