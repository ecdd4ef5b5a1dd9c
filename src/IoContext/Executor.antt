-- ===== src/IoContext/Executor.antt =====
-- `io_context::executor_type` of io/io_context.{hpp,cpp}. The contexts of a program are known by their
-- numbers, and an executor is the pointer to one.
use svarog_io.Common.{ℕ, ◌≡◌, Bool, ◌==◌, false, ◌∷◌, [], ◌++◌, arith}
use svarog_io.Common.Family.{update}
use svarog_io.WorkQueue.{push_item}
use svarog_io.IoContext.{Context, post, posted}

-- `m_context`
pub record Executor : Type 0 where
  pub context : ℕ

-- `get_executor`
abbrev pub get_executor : ℕ → Executor
get_executor c = record { context = c }

-- `executor_type::operator==`
abbrev pub same_executor : Executor → Executor → Bool
same_executor a b = a.context == b.context

module _ {ℓ} {H W : Type ℓ} where
  -- The answer of the push is ignored, as in `post`.
  unfoldable pub execute : Executor → H → (ℕ → Context H W) → ℕ → Context H W
  unfolding post
  execute e h contexts = update contexts e.context (post h (contexts e.context))

  -- Executors that compare different reach different contexts: what one executes, another context
  -- does not see; and a context that is not stopped queues it behind what it has.
  pub execute-other :
      (a b : Executor) (h : H) (contexts : ℕ → Context H W)
      → same_executor a b ≡ false
      → (contexts a.context).handlers.is_stopped ≡ false
      → (execute a h contexts b.context ≡ contexts b.context)
        × ((execute a h contexts a.context).handlers.items
            ≡ (contexts a.context).handlers.items ++ posted h ∷ [])
  unfolding execute push_item
  execute-other a b h contexts apart running = (ground (arith, apart), ground (arith, running))
