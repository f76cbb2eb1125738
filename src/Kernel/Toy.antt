-- ===== src/Kernel/Toy.antt =====
-- A small kernel that meets the laws, at which the theorems are run. Pokes and writes succeed as
-- often as the world allows; a single step stands for a system call and puts `answer` into every
-- register.
use watchmaker.Prelude.{ℕ, zero, suc, refl, List, [], ◌∷◌, ◌++◌, arith}
use watchmaker.Prelude.Outcome.{ok, fail}
use watchmaker.Prelude.State.{Ran, pure}
use watchmaker.Go.Text.{Bytes, codes}
use watchmaker.Errors.{Error, sys}
use watchmaker.Kernel.{Regs, Kernel}
use watchmaker.Kernel.Laws.{Memory, patch, slice, View, Laws}

pub record World : Type 0 where
  pub memory : Memory
  pub regs : Regs
  pub pokes : ℕ
  pub writes : ℕ
  pub answer : ℕ
  pub tasks : List Bytes
  pub maps : Bytes
  pub detached : List ℕ

abbrev io_error : Error
io_error = sys (codes "input/output error")

-- One of a budget of calls.
abbrev spend : ℕ → (ℕ → World) → World → Ran Error World (Unit {0})
spend zero next w = (fail io_error, w)
spend (suc n) next w = (ok tt, next n)

abbrev pub toy : Kernel World
toy = record {
  task_names = λ pid w. (ok w.tasks, w);
  maps_file = λ pid w. (ok w.maps, w);
  seize = λ tid. pure tt;
  interrupt = λ tid. pure tt;
  detach = λ tid w. (ok tt, record w { detached = w.detached ++ tid ∷ [] });
  wait4 = λ pid. pure pid;
  get_regs = λ pid w. (ok w.regs, w);
  set_regs = λ pid r w. (ok tt, record w { regs = r });
  peek_data = λ pid addr n w. (ok (slice w.memory addr n), w);
  poke_data = λ pid addr bytes w.
      spend w.pokes (λ n. record w { memory = patch w.memory addr bytes; pokes = n }) w;
  single_step =
      λ pid w. (ok tt, record w { regs = record { general = λ _. w.answer; ip = w.regs.ip } });
  vm_read = λ pid addr n w. (ok (slice w.memory addr n), w);
  vm_write = λ pid addr bytes w.
      spend w.writes (λ n. record w { memory = patch w.memory addr bytes; writes = n }) w;
  page_size = 4096;
  pid_max = 32;
}

abbrev pub toy_view : View World
toy_view = record { memory = λ w. w.memory; regs = λ w. w.regs }

pub toy-Laws : (pid : ℕ) → Laws toy pid toy_view
toy-Laws pid = record {
  get_regs = λ w r e. cc;
  get_regs_keeps = record { memory = λ w. refl; regs = λ w. refl };
  set_regs = λ w r e. refl;
  set_regs_keeps = λ w r. refl;
  peek = λ w addr n bytes e. cc;
  peek_keeps = λ addr n. record { memory = λ w. refl; regs = λ w. refl };
  poke = λ w addr bytes small e. ground arith;
  poke_fails = λ w addr bytes small e x. ground arith;
  poke_keeps = λ w addr bytes. ground arith;
  vm_read = λ w addr n bytes e. cc;
  vm_read_keeps = λ addr n. record { memory = λ w. refl; regs = λ w. refl };
  vm_write = λ w addr bytes e. ground arith;
}
