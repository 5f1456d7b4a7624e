-- ===== src/Vault/Changes/Statement.antt =====
-- pipeline/vault.ts: how the effect of an operation is stated.
use proofmark.Prelude.{Result, Yields, returns, throws}
use proofmark.Vault.Data.{VaultData, Runtime}
use proofmark.Vault.Calls.{VaultCall, data_of}
use proofmark.Vault.Effects.{Change}

pub data_of-Yields :
    {A : Type 0} {P : VaultData → Type 0} {m : Result (A × VaultData)}
    → Yields (λ (x : A × VaultData). P x.1) m
    → Yields P (data_of m)
data_of-Yields (returns h) = returns h
data_of-Yields throws = throws

module _ (run : Runtime) (call : VaultCall) where
  abbrev pub Changes : VaultData → Result VaultData → Type 0
  Changes d = Yields (Change run call d)

  abbrev pub Gives : {A : Type 0} → VaultData → Result (A × VaultData) → Type 0
  Gives {A} d = Yields (λ (x : A × VaultData). Change run call d x.1)
