-- ===== src/Reactor/Base.antt =====
-- `reactor_base` of io/detail/reactor_interface.hpp: what a context and a socket call of a reactor,
-- given the functions of the derived class. `D` is the derived class.
use svarog_io.Common.{ℕ, Bool}
use svarog_io.Reactor.Operations.{IoOperation}
use svarog_io.Reactor.Epoll.{
  Reactor, Epoll, Called, do_register, do_unregister, do_modify, do_run_one, do_poll_one, do_stop,
}

-- The functions that `reactor_base` wants of a derived class
pub record Derived {ℓ} (H D : Type ℓ) : Type ℓ where
  pub registering : ℕ → IoOperation → H → D → Called D
  pub unregistering : ℕ → D → Called D
  pub modifying : ℕ → IoOperation → D → Called D
  pub running_one : ℕ → D → Called (D × ℕ)
  pub polling_one : D → Called (D × ℕ)
  pub stopping : D → D
  pub is_stopped : D → Bool

module _ {ℓ} {H D : Type ℓ} (self : Derived H D) where
  abbrev pub register_descriptor : ℕ → IoOperation → H → D → Called D
  register_descriptor fd ops h d = self.registering fd ops h d

  abbrev pub unregister_descriptor : ℕ → D → Called D
  unregister_descriptor fd d = self.unregistering fd d

  abbrev pub modify_descriptor : ℕ → IoOperation → D → Called D
  modify_descriptor fd ops d = self.modifying fd ops d

  abbrev pub run_one : ℕ → D → Called (D × ℕ)
  run_one timeout d = self.running_one timeout d

  abbrev pub poll_one : D → Called (D × ℕ)
  poll_one d = self.polling_one d

  abbrev pub stop : D → D
  stop d = self.stopping d

  abbrev pub stopped : D → Bool
  stopped d = self.is_stopped d

-- `class epoll_reactor : public reactor_base<epoll_reactor>`
abbrev pub epoll_reactor {ℓ} : {H W : Type ℓ} → Epoll H W → Derived H (Reactor H W)
epoll_reactor epoll = record {
  registering = do_register epoll;
  unregistering = do_unregister epoll;
  modifying = do_modify epoll;
  running_one = do_run_one epoll;
  polling_one = do_poll_one epoll;
  stopping = do_stop;
  is_stopped = λ r. r.is_stopped;
}
