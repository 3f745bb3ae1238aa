-- ===== src/Pipe/InFlight/Moves.antt =====
-- How instructions move between the stages of the core, one step of its flow each.
use ysyx_np_sim.Prelude.{ℕ, ◌≡◌, ap, subst, Option, none, some, arith}
use ysyx_np_sim.Pipe.Types.{
  Transaction, PerStage, fetch, decode, execute, int_mul_ext, int_div_ext, memory, put, sub64,
}
use ysyx_np_sim.Pipe.Ifq.{Ifq}
use ysyx_np_sim.Pipe.InFlight.{Flow, weight, CountedSlot, Flow-lt, weight-counted}

module _ {i : Option Transaction} {q : Ifq Transaction} {p : PerStage (Option Transaction)}
    {n : ℕ} where
  pub to_decode :
      Flow i q p n
      → p.in_decode ≡ none
      → CountedSlot p.in_fetch
      → Flow i q (put fetch none (put decode p.in_fetch p)) n
  to_decode f e k = record {
    entries = f.entries;
    queue = f.queue;
    fresh = f.fresh;
    fetch_fresh = tt;
    input_real = f.input_real;
    decode_counted = k;
    execute_counted = f.execute_counted;
    mul_counted = f.mul_counted;
    div_counted = f.div_counted;
    memory_counted = f.memory_counted;
    number = omega (arith, f.number, ap weight e);
    room = f.room;
  }

  pub to_execute :
      Flow i q p n → p.in_execute ≡ none → Flow i q (put decode none (put execute p.in_decode p)) n
  to_execute f e = record {
    entries = f.entries;
    queue = f.queue;
    fresh = f.fresh;
    fetch_fresh = f.fetch_fresh;
    input_real = f.input_real;
    decode_counted = tt;
    execute_counted = f.decode_counted;
    mul_counted = f.mul_counted;
    div_counted = f.div_counted;
    memory_counted = f.memory_counted;
    number = omega (arith, f.number, ap weight e);
    room = f.room;
  }

  pub to_mul :
      Flow i q p n → p.in_mul ≡ none → Flow i q (put decode none (put int_mul_ext p.in_decode p)) n
  to_mul f e = record {
    entries = f.entries;
    queue = f.queue;
    fresh = f.fresh;
    fetch_fresh = f.fetch_fresh;
    input_real = f.input_real;
    decode_counted = tt;
    execute_counted = f.execute_counted;
    mul_counted = f.decode_counted;
    div_counted = f.div_counted;
    memory_counted = f.memory_counted;
    number = omega (arith, f.number, ap weight e);
    room = f.room;
  }

  pub to_div :
      Flow i q p n → p.in_div ≡ none → Flow i q (put decode none (put int_div_ext p.in_decode p)) n
  to_div f e = record {
    entries = f.entries;
    queue = f.queue;
    fresh = f.fresh;
    fetch_fresh = f.fetch_fresh;
    input_real = f.input_real;
    decode_counted = tt;
    execute_counted = f.execute_counted;
    mul_counted = f.mul_counted;
    div_counted = f.decode_counted;
    memory_counted = f.memory_counted;
    number = omega (arith, f.number, ap weight e);
    room = f.room;
  }

  pub to_memory :
      Flow i q p n → p.in_memory ≡ none → Flow i q (put execute none (put memory p.in_execute p)) n
  to_memory f e = record {
    entries = f.entries;
    queue = f.queue;
    fresh = f.fresh;
    fetch_fresh = f.fetch_fresh;
    input_real = f.input_real;
    decode_counted = f.decode_counted;
    execute_counted = tt;
    mul_counted = f.mul_counted;
    div_counted = f.div_counted;
    memory_counted = f.execute_counted;
    number = omega (arith, f.number, ap weight e);
    room = f.room;
  }

  -- A placeholder leaves the Fetch slot.
  pub drop_fetch : Flow i q p n → weight p.in_fetch ≡ 0 → Flow i q (put fetch none p) n
  drop_fetch f e = record {
    entries = f.entries;
    queue = f.queue;
    fresh = f.fresh;
    fetch_fresh = tt;
    input_real = f.input_real;
    decode_counted = f.decode_counted;
    execute_counted = f.execute_counted;
    mul_counted = f.mul_counted;
    div_counted = f.div_counted;
    memory_counted = f.memory_counted;
    number = omega (arith, f.number, e);
    room = f.room;
  }

  -- An instruction is written back from one of three slots.
  pub from_memory :
      (t : Transaction)
      → Flow i q p n
      → p.in_memory ≡ some t
      → Flow i q (put memory none p) (sub64 n 1)
  from_memory t f e =
      let one = weight-counted t (subst CountedSlot e f.memory_counted) in
      record {
        entries = f.entries;
        queue = f.queue;
        fresh = f.fresh;
        fetch_fresh = f.fetch_fresh;
        input_real = f.input_real;
        decode_counted = f.decode_counted;
        execute_counted = f.execute_counted;
        mul_counted = f.mul_counted;
        div_counted = f.div_counted;
        memory_counted = tt;
        number = omega (arith, f.number, ap weight e, one, Flow-lt f);
        room = f.room;
      }

  pub from_mul :
      (t : Transaction)
      → Flow i q p n
      → p.in_mul ≡ some t
      → Flow i q (put int_mul_ext none p) (sub64 n 1)
  from_mul t f e =
      let one = weight-counted t (subst CountedSlot e f.mul_counted) in
      record {
        entries = f.entries;
        queue = f.queue;
        fresh = f.fresh;
        fetch_fresh = f.fetch_fresh;
        input_real = f.input_real;
        decode_counted = f.decode_counted;
        execute_counted = f.execute_counted;
        mul_counted = tt;
        div_counted = f.div_counted;
        memory_counted = f.memory_counted;
        number = omega (arith, f.number, ap weight e, one, Flow-lt f);
        room = f.room;
      }

  pub from_div :
      (t : Transaction)
      → Flow i q p n
      → p.in_div ≡ some t
      → Flow i q (put int_div_ext none p) (sub64 n 1)
  from_div t f e =
      let one = weight-counted t (subst CountedSlot e f.div_counted) in
      record {
        entries = f.entries;
        queue = f.queue;
        fresh = f.fresh;
        fetch_fresh = f.fetch_fresh;
        input_real = f.input_real;
        decode_counted = f.decode_counted;
        execute_counted = f.execute_counted;
        mul_counted = f.mul_counted;
        div_counted = tt;
        memory_counted = f.memory_counted;
        number = omega (arith, f.number, ap weight e, one, Flow-lt f);
        room = f.room;
      }
