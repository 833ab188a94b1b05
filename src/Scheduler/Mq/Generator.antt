-- ===== src/Scheduler/Mq/Generator.antt =====
-- The random numbers of src/mt/scheduler/plugin/mq/kupl_sched_mq.cpp, on 32-bit words.
use kupl.Prelude.{
  ℕ, ◌+◌, ◌*◌, ◌/◌, ◌%◌, ◌^◌, Bool, true, if◌then◌else◌, List, [], ◌∷◌, length, get_or,
}

abbrev pub kupl_primes : List ℕ
kupl_primes =
    0x9e3779b1 ∷ 0xe1626741 ∷ 0x9677cd4d ∷ 0x99afc3fd ∷ 0x3d9910ed ∷ 0x46eb5ea7 ∷ 0xffe6cc59
    ∷ 0x79695e6b ∷ 0xbe3a6929 ∷ 0xf3f16801 ∷ 0x2e687b5b ∷ 0x6c97d5ed ∷ 0x2109f6dd ∷ 0xbc98c09f
    ∷ 0xadc6a877 ∷ 0xe222cfff ∷ 0x29609227 ∷ 0xb07dd827 ∷ 0x43977ab5 ∷ 0xd5bee2b3 ∷ 0xdcf0674b
    ∷ 0x24ba5fdb ∷ 0x6eb081f1 ∷ 0x085a3d61 ∷ 0xba5703f5 ∷ 0x287488f9 ∷ 0xbe4d6fe9 ∷ 0x0620452d
    ∷ 0x0954c4e1 ∷ 0x972702cd ∷ 0xb495a877 ∷ 0x3af18231 ∷ 0x5f15e201 ∷ 0x79f149e3 ∷ 0x9d114db9
    ∷ 0xc8b93f49 ∷ 0xbec333cd ∷ 0x542acfa9 ∷ 0xef1affc7 ∷ 0x5d2e980b ∷ 0x3549366b ∷ 0xb98294e5
    ∷ 0xe9f3ffa7 ∷ 0x6bdef3c9 ∷ 0x5ca19031 ∷ 0xe6baf34b ∷ 0x343377f7 ∷ 0xf2480f45 ∷ 0x54581edb
    ∷ 0xf0a9f391 ∷ 0x892d9483 ∷ 0x629750ad ∷ 0x3d2402a3 ∷ 0x0742d917 ∷ 0x40c9520f ∷ 0x85fa0ca7
    ∷ 0xfc411073 ∷ 0x3ccc14db ∷ 0xb3e6bd7b ∷ 0xb892d829 ∷ 0xc3749363 ∷ 0xc235baf3 ∷ 0xe6d9293b
    ∷ 0x0bb9288f ∷ []

-- `th_x`, `th_a` and `random_inited` of one thread.
pub record Random : Type 0 where
  pub th_x : ℕ
  pub th_a : ℕ
  pub random_inited : Bool

-- The number, an `unsigned short`, and the next state.
unfoldable pub kupl_get_random : Random → ℕ × Random
kupl_get_random r =
    let x = r.th_x in (x / 2 ^ 16 % 2 ^ 16, record r { th_x = (x * r.th_a + 1) % 2 ^ 32 })

unfoldable pub kupl_init_random : ℕ → Random → Random
kupl_init_random executor_id r =
    let seed = executor_id in
    let a = get_or kupl_primes (seed % length kupl_primes) 0 in
    if r.random_inited
    then r
    else (record { th_x = ((seed + 1) * a + 1) % 2 ^ 32; th_a = a; random_inited = true })
