-- ===== src/Contract/Handler.antt =====
-- appMgr/common/server.go: `ContractInf`, what the application manager calls of a contract, and the
-- two contracts behind it.
use hnb_blockchain.Prelude.Result.{Action, pure, ◌>>=◌}
use hnb_blockchain.State.{Ledger}
use hnb_blockchain.App.Api.{ContractApi}
use hnb_blockchain.Contract.Requests.{Json}
use hnb_blockchain.Contract.Hnb.Invoke as Hnb
use hnb_blockchain.Contract.Hnb.Invoke.{Reply, stored}
use hnb_blockchain.Contract.Hgs

pub record ContractInf : Type 0 where
  pub invoke : Ledger → Action ContractApi (Unit {0})
  pub query : Ledger → Action ContractApi Reply
  pub check_tx : Ledger → Action ContractApi (Unit {0})

unfoldable pub hnb_contract : Json → ContractInf
hnb_contract json = record {
  invoke = Hnb.invoke json;
  query = Hnb.query json;
  check_tx = Hnb.check_tx json;
}

unfoldable pub hgs_contract : Json → ContractInf
hgs_contract json = record {
  invoke = Hgs.invoke json;
  query = λ ledger. Hgs.query json ledger >>= λ v. pure (stored v);
  check_tx = Hgs.check_tx json;
}
