-- ===== src/Process.antt =====
-- kernel/process/process.cpp, process.hpp and context.hpp: the table of 16 processes. A `Process*` is a
-- slot index of the table. The registers that UserContext, InterruptFrame (kernel/arch/interrupts.hpp)
-- and syscall::Frame (kernel/syscall/syscall.hpp) have in common are the record Registers. An `int64_t`
-- is the 64-bit pattern that stands for it.
pub mod Pids
pub mod Reap
mod Tests
use linux95_kernel.Prelude.{
  ℕ, zero, suc, ◌+◌, ◌-◌, ◌*◌, ◌/◌, ◌%◌, ◌^◌, Bool, true, false, ◌&&◌, ◌||◌, not, Option, none,
  some, List, [], ◌∷◌, ◌++◌, ltb, leb, ◌==◌, if◌then◌else◌, get_or, set, replicate, find_from,
}

pub data State : Type 0 where
  unused created ready running blocked exited : State

pub data ReturnKind : Type 0 where
  iret sysret : ReturnKind

pub record Registers : Type 0 where
  pub r15 : ℕ
  pub r14 : ℕ
  pub r13 : ℕ
  pub r12 : ℕ
  pub r11 : ℕ
  pub r10 : ℕ
  pub r9 : ℕ
  pub r8 : ℕ
  pub rbp : ℕ
  pub rdi : ℕ
  pub rsi : ℕ
  pub rdx : ℕ
  pub rcx : ℕ
  pub rbx : ℕ
  pub rax : ℕ
  pub rip : ℕ
  pub rsp : ℕ
  pub rflags : ℕ
  pub cs : ℕ
  pub ss : ℕ

pub record UserContext : Type 0 where
  pub registers : Registers
  pub return_kind : ReturnKind

pub record InterruptFrame : Type 0 where
  pub registers : Registers
  pub vector : ℕ
  pub error_code : ℕ

pub record Process : Type 0 where
  pub pid : ℕ
  pub state : State
  pub page_table_physical : ℕ
  pub user_entry : ℕ
  pub user_stack_top : ℕ
  pub kernel_stack_base : ℕ
  pub kernel_stack_top : ℕ
  pub context : UserContext
  pub exit_code : ℕ
  pub fault_vector : ℕ
  pub fault_error_code : ℕ
  pub fault_address : ℕ

abbrev zero_registers : Registers
zero_registers = record {
  r15 = 0;
  r14 = 0;
  r13 = 0;
  r12 = 0;
  r11 = 0;
  r10 = 0;
  r9 = 0;
  r8 = 0;
  rbp = 0;
  rdi = 0;
  rsi = 0;
  rdx = 0;
  rcx = 0;
  rbx = 0;
  rax = 0;
  rip = 0;
  rsp = 0;
  rflags = 0;
  cs = 0;
  ss = 0;
}

-- `process = {}; process.state = State::Unused`
abbrev pub blank : Process
blank = record {
  pid = 0;
  state = unused;
  page_table_physical = 0;
  user_entry = 0;
  user_stack_top = 0;
  kernel_stack_base = 0;
  kernel_stack_top = 0;
  context = record { registers = zero_registers; return_kind = iret };
  exit_code = 0;
  fault_vector = 0;
  fault_error_code = 0;
  fault_address = 0;
}

abbrev pub is_unused : State → Bool
is_unused unused = true
is_unused _ = false

abbrev pub is_ready : State → Bool
is_ready ready = true
is_ready _ = false

abbrev pub is_running : State → Bool
is_running running = true
is_running _ = false

abbrev pub is_exited : State → Bool
is_exited exited = true
is_exited _ = false

-- kProcessCapacity
abbrev pub capacity : ℕ
capacity = 16

-- g_processes and g_next_pid
pub record Table : Type 0 where
  pub slots : List Process
  pub next_pid : ℕ

abbrev pub slot : Table → ℕ → Process
slot t i = get_or t.slots i blank

abbrev pub put : Table → ℕ → Process → Table
put t i p = record t { slots = set t.slots i p }

unfoldable pub initialize : Table
initialize = record { slots = replicate capacity blank; next_pid = 1 }

unfoldable pub allocate : Table → Option ℕ × Table
allocate t = elim (find_from capacity 0 (λ i. is_unused (slot t i).state)) [
  | none ↦ (none, t)
  | some i ↦ (
    some i,
    record t {
      slots = set t.slots i (record blank { pid = t.next_pid; state = created });
      next_pid = (t.next_pid + 1) % 2 ^ 32;
    },
  )
]

unfoldable pub find : Table → ℕ → Option ℕ
find t pid = find_from capacity 0 (λ i. not (is_unused (slot t i).state) && ((slot t i).pid == pid))

unfoldable pub release : Table → ℕ → Table
release t i = put t i blank

-- The registers as UserContext keeps them: `cs` and `ss` have 16 bits there.
unfoldable pub captured : Registers → ReturnKind → UserContext
captured f kind = record {
  registers = record f { cs = f.cs % 2 ^ 16; ss = f.ss % 2 ^ 16 };
  return_kind = kind;
}

unfoldable pub capture_interrupt_context : Process → InterruptFrame → Process
capture_interrupt_context p frame = record p { context = captured frame.registers iret }

unfoldable pub mark_exited : Process → ℕ → Process
mark_exited p code = record p { exit_code = code; state = exited }

-- The function pointers of ReapOperations; `none` and `false` stand for null. The calls that they make
-- are recorded as effects.
pub record ReapOperations : Type 0 where
  pub lookup_user_page : Option (ℕ → ℕ → Option ℕ)
  pub release_physical_page : Bool
  pub destroy_address_space : Bool
  pub kernel_stack_physical : Option (ℕ → ℕ)

pub data Effect : Type 0 where
  released destroyed : ℕ → Effect

abbrev pub user_image_base : ℕ
user_image_base = 0x0000_4000_0000_0000

abbrev pub user_image_limit : ℕ
user_image_limit = 0x0000_4001_0000_0000

abbrev pub user_stack_top : ℕ
user_stack_top = 0x0000_7FFF_FFF0_0000

abbrev pub user_stack_pages : ℕ
user_stack_pages = 8

abbrev pub page_size : ℕ
page_size = 4096

abbrev pub released_page : Option ℕ → List Effect → List Effect
released_page none rest = rest
released_page (some physical) rest = released physical ∷ rest

-- `for (address = first; address < limit; address += kPageSize)`, on the number of rounds left.
unfoldable pub release_pages : (ℕ → Option ℕ) → ℕ → ℕ → List Effect
release_pages lookup zero address = []
release_pages lookup (suc rounds) address =
    released_page (lookup address) (release_pages lookup rounds (address + page_size))

unfoldable pub release_mapped_range : Process → ReapOperations → ℕ → ℕ → List Effect
release_mapped_range p ops first limit = elim ops.lookup_user_page [
  | none ↦ []
  | some lookup ↦
      if not ops.release_physical_page || (p.page_table_physical == 0)
      then []
      else release_pages (lookup p.page_table_physical)
          ((limit - first + (page_size - 1)) / page_size) first
]

abbrev pub stack_bottom : ℕ
stack_bottom = user_stack_top - user_stack_pages * page_size

abbrev pub destroy_effects : Process → ReapOperations → List Effect
destroy_effects p ops =
    if not (p.page_table_physical == 0) && ops.destroy_address_space
    then destroyed p.page_table_physical ∷ []
    else []

abbrev pub stack_effects : Process → ReapOperations → List Effect
stack_effects p ops = elim ops.kernel_stack_physical [
  | none ↦ []
  | some physical ↦
      if not (p.kernel_stack_base == 0) && ops.release_physical_page
      then released (physical p.kernel_stack_base) ∷ []
      else []
]

unfoldable pub reap_one : Table → ReapOperations → ℕ → List Effect × Table
reap_one t ops i =
    let p = slot t i in
    if not (is_exited p.state) then ([], t) else (
      release_mapped_range p ops user_image_base user_image_limit
          ++ (release_mapped_range p ops stack_bottom user_stack_top
              ++ (destroy_effects p ops ++ stack_effects p ops)),
      release t i,
    )

-- The loop over the table, from slot `i` on.
unfoldable pub reap_from : ℕ → ℕ → ReapOperations → Table → List Effect × Table
reap_from zero i ops t = ([], t)
reap_from (suc rounds) i ops t =
    let (effects, t') = reap_one t ops i in
    let (later, t'') = reap_from rounds (i + 1) ops t' in (effects ++ later, t'')

-- The loop of reap_exited; what it does to the processor state first stands in Scheduler.
unfoldable pub reap_exited : ReapOperations → Table → List Effect × Table
reap_exited ops t = reap_from capacity 0 ops t
