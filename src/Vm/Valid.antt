-- ===== src/Vm/Valid.antt =====
-- The invariant of the machine's state (include/VirtualMachine.h), and its memory as one flat array.
use zlvm.Prelude.{
  ℕ, ◌+◌, ◌-◌, ◌^◌, ◌<◌, ◌≡◌, arith, leb, if◌then◌else◌, IsByte, IsWord, length, get_or, All,
  All-get_or, All-set, length-set, ◌∙◌, All-replicate, length-replicate, List,
}
use zlvm.Vm.{
  VirtualMachine, State, Cpsr, rom_size, register_count, register, set_register, vm_set_state,
  vm_initialize,
}
use zlvm.Alu.{Alu}

-- The arrays have their lengths and hold bytes and words, and the address space fits `size_t`.
pub record IsValid (vm : VirtualMachine) : Type 0 where
  pub rom_length : length vm.rom ≡ rom_size
  pub memory_length : length vm.memory ≡ vm.memory_size
  pub fits : rom_size + vm.memory_size < 2 ^ 64
  pub register_length : length vm.registers ≡ register_count
  pub rom_bytes : All IsByte vm.rom
  pub memory_bytes : All IsByte vm.memory
  pub register_words : All IsWord vm.registers
  pub entry_word : IsWord vm.entry_point

-- The address space.
abbrev pub memory_end : VirtualMachine → ℕ
memory_end vm = rom_size + vm.memory_size

unfoldable pub byte_at : VirtualMachine → ℕ → ℕ
byte_at vm a = if leb rom_size a then get_or vm.memory (a - rom_size) 0 else get_or vm.rom a 0

pub byte_at-IsByte : (vm : VirtualMachine) → IsValid vm → (a : ℕ) → IsByte (byte_at vm a)
unfolding byte_at
byte_at-IsByte vm v a = ground (
  arith,
  All-get_or IsByte vm.memory (a - rom_size) 0 v.memory_bytes (omega arith),
  All-get_or IsByte vm.rom a 0 v.rom_bytes (omega arith),
)

pub register-IsWord : (vm : VirtualMachine) (r : ℕ) → IsValid vm → IsWord (register vm r)
unfolding register
register-IsWord vm r v = All-get_or IsWord vm.registers r 0 v.register_words (omega arith)

pub set_register-IsValid :
    (vm : VirtualMachine) (r value : ℕ)
    → IsValid vm
    → IsWord value
    → IsValid (set_register vm r value)
unfolding set_register
set_register-IsValid vm r value v w = record {
  rom_length = v.rom_length;
  memory_length = v.memory_length;
  fits = v.fits;
  register_length = length-set vm.registers r value ∙ v.register_length;
  rom_bytes = v.rom_bytes;
  memory_bytes = v.memory_bytes;
  register_words = All-set IsWord vm.registers r value v.register_words w;
  entry_word = v.entry_word;
}

-- The status register, the arithmetic unit and the console take no part in the invariant.
pub other_fields-IsValid :
    (vm : VirtualMachine) (cpsr : Cpsr) (alu : Alu) (input output : List ℕ)
    → IsValid vm
    → IsValid (record vm { cpsr = cpsr; alu = alu; input = input; output = output })
other_fields-IsValid vm cpsr alu input output v = record {
  rom_length = v.rom_length;
  memory_length = v.memory_length;
  fits = v.fits;
  register_length = v.register_length;
  rom_bytes = v.rom_bytes;
  memory_bytes = v.memory_bytes;
  register_words = v.register_words;
  entry_word = v.entry_word;
}

pub vm_set_state_frame :
    (vm : VirtualMachine) (s : State)
    → vm_set_state vm s ≡ record vm { cpsr = record (vm.cpsr) { st = (vm_set_state vm s).cpsr.st } }
unfolding vm_set_state
vm_set_state_frame vm s = ground arith

pub vm_set_state-IsValid :
    (vm : VirtualMachine) (s : State) → IsValid vm → IsValid (vm_set_state vm s)
vm_set_state-IsValid vm s v =
    rw (vm_set_state_frame vm s) (other_fields-IsValid vm _ vm.alu vm.input vm.output v)

-- Where the RAM size leaves room for the ROM in `size_t`, a new machine is valid.
pub vm_initialize-IsValid :
    (ram_size : ℕ) (stdin : List ℕ) (vm : VirtualMachine)
    → rom_size + ram_size < 2 ^ 64
    → IsValid (vm_initialize ram_size stdin vm)
unfolding vm_initialize
vm_initialize-IsValid ram_size stdin vm h = vm_set_state-IsValid _ _ (record {
  rom_length = length-replicate rom_size 0;
  memory_length = length-replicate ram_size 0;
  fits = h;
  register_length = length-replicate register_count 0;
  rom_bytes = All-replicate IsByte rom_size 0 (omega arith);
  memory_bytes = All-replicate IsByte ram_size 0 (omega arith);
  register_words = All-replicate IsWord register_count 0 (omega arith);
  entry_word = omega arith;
})
