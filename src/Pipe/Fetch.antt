-- ===== src/Pipe/Fetch.antt =====
-- pipeSim/Pipeline.cc: the two ends of the fetch queue, `do_fetch_0` and `do_fetch_1`.
pub mod Flow
pub mod Alike
use ysyx_np_sim.Prelude.{
  ℕ, ◌+◌, ◌-◌, max, Bool, true, false, not, ◌&&◌, Option, none, some, [], ◌∷◌, ◌++◌, ◌>>=◌, ◌>>◌,
  assert, if◌then◌else◌, ltb, set_at, u32, u64, incr,
}
use ysyx_np_sim.Trace.{TraceInst, is_set, no_inst}
use ysyx_np_sim.Branch.Types.{BranchResult}
use ysyx_np_sim.Branch.Unit.{BranchUnit}
use ysyx_np_sim.Branch.Unit
use ysyx_np_sim.Branch.Interface.{BranchPred}
use ysyx_np_sim.Pipe.Types.{Transaction, FetchState, transaction, br_mispred, fetch, inf_time}
use ysyx_np_sim.Pipe.Ifq.{Ifq}
use ysyx_np_sim.Pipe.Ifq
use ysyx_np_sim.Pipe.Stall
use ysyx_np_sim.Pipe.Core.{Core, Ports, imem, present, schedule, set_slot, stall}

module _ {P C : Type 0} where
  -- The front entry holds for its branch metadata.
  hold_front : Core P C → Transaction → ℕ → Option (Core P C)
  hold_front c t now = do
    let held = record t { bp_meta_hold = t.bp_meta_hold - 1 }
    buf ← set_at c.fetch_queue.buf c.fetch_queue.head (some held)
    schedule (record c { fetch_queue = record c.fetch_queue { buf = buf } }) fetch (u64 (now + 1))
        now

  -- The front entry enters the Fetch stage.
  issue_front : Core P C → Transaction → Option (Core P C)
  issue_front c t = do
    assert (not (present c.sim_pipe.in_fetch))
    queue ← Ifq.pop_front c.fetch_queue
    some (record (set_slot c fetch (some t)) { fetch_queue = queue })

  try_front : Core P C → Transaction → ℕ → Option (Core P C)
  unfolding hold_front issue_front
  try_front c t now =
      let idle = schedule c fetch inf_time now in
      let held = hold_front c t now in
      let issued = issue_front c t in
      if t.wait_mem then idle else if ltb 0 t.bp_meta_hold then held else issued

  pub do_fetch_1 : Core P C → ℕ → Option (Core P C)
  unfolding try_front
  do_fetch_1 c now =
      let idle = schedule c fetch inf_time now in
      let tried = Ifq.front c.fetch_queue >>= λ t. try_front c t now in
      if Ifq.empty c.fetch_queue then idle else tried

-- The redirect of a wrong path, whose stages `s1` and `s2` delay it by two requests.
take_redirect : FetchState → FetchState
take_redirect f =
    if f.wp_redirect_s2
    then record f {
      wrong_path_pc = f.wp_redirect_target_s2;
      wp_redirect_s2 = false;
      wp_redirect_s1 = false;
    }
    else f

shift_redirect : FetchState → FetchState
shift_redirect f =
    if f.wp_redirect_s1
    then record f {
      wp_redirect_s2 = true;
      wp_redirect_target_s2 = f.wp_redirect_target_s1;
      wp_redirect_s1 = false;
    }
    else f

-- `hit` says that the prediction redirects and no redirect was taken in this tick.
start_redirect : FetchState → Bool → ℕ → FetchState
start_redirect f hit target =
    if hit then record f { wp_redirect_s1 = true; wp_redirect_target_s1 = target } else f

pub next_wrong : FetchState → Bool → ℕ → FetchState
unfolding take_redirect shift_redirect start_redirect
next_wrong f hit target =
    start_redirect
      (shift_redirect (take_redirect (record f { wrong_path_pc = u32 (f.wrong_path_pc + 4) }))) hit
      target

-- One more request in flight.
abbrev pub requested : FetchState → Bool → FetchState
requested f orphan = record f { resp_is_orphan = f.resp_is_orphan ++ (orphan ∷ []) }

-- Where the wrong path begins.
abbrev pub wrong_pc : TraceInst → Bool → BranchResult → ℕ
wrong_pc inst real_taken pred =
    if real_taken && not pred.will_redirect then u32 (inst.pc + 4) else pred.pred_target

-- What the prediction for an instruction makes of the fetch state.
pub steer : FetchState → TraceInst → Bool → Bool → BranchResult → ℕ → FetchState
steer f inst real_taken accurate pred now =
    let f1 =
      if accurate
      then f
      else record f { wrong_path = true; wrong_path_pc = wrong_pc inst real_taken pred } in
    let f2 = requested f1 false in
    let f3 =
      if pred.tage_overrode_bimodal
      then record f2 { resume_tick = max f2.resume_tick (u64 (now + 2)) }
      else f2 in
    if accurate && pred.will_redirect
    then record f3 { early_redir_remaining = 2; early_redir_seq_pc = u32 (inst.pc + 4) }
    else f3

module _ {P C : Type 0} (api : BranchPred P) (io : Ports C) where
  early_redirect : Core P C → ℕ → Option (Core P C)
  early_redirect c now = do
    let f = c.fetch_state
    ports ← io.read_req c.ports imem f.early_redir_seq_pc now
    some (record c {
      ports = ports;
      fetch_state = record (requested f true) {
        early_redir_seq_pc = u32 (f.early_redir_seq_pc + 4);
        early_redir_remaining = f.early_redir_remaining - 1;
      };
    })

  request_wrong : Core P C → ℕ → Option (Core P C)
  unfolding next_wrong
  request_wrong c now = do
    let f = c.fetch_state
    (pred, bpu) ← Unit.predict api c.bpu f.wrong_path_pc
    let inst = record no_inst { pc = f.wrong_path_pc }
    queue ← Ifq.push_back c.fetch_queue (transaction inst true true)
    ports ← io.read_req c.ports imem f.wrong_path_pc now
    let hit = pred.will_redirect && not f.wp_redirect_s2
    let stats = c.tally.stats
    some (record c {
      bpu = bpu;
      ports = ports;
      fetch_queue = queue;
      fetch_state = next_wrong (requested f false) hit pred.pred_target;
      tally = record c.tally {
        stats = record stats {
          wp_bpu_queries = incr stats.wp_bpu_queries;
          wp_redirects = if f.wp_redirect_s2 then incr stats.wp_redirects else stats.wp_redirects;
          wp_btb_hits = if hit then incr stats.wp_btb_hits else stats.wp_btb_hits;
        };
      };
    })

  wrong_fetch : Core P C → ℕ → Option (Core P C)
  unfolding request_wrong
  wrong_fetch c now =
      let fetched = request_wrong c now in if Ifq.full c.fetch_queue then some c else fetched

  -- The transaction with its hold for the branch metadata.
  abbrev pub held : Transaction → Transaction
  held t =
      let inst = t.trace_inst in
      record t {
        wait_mem = true;
        bp_meta_hold =
            if is_set inst.is_branch && api.is_no_bpu
            then (if is_set inst.br_taken then 2 else 0)
            else t.bp_meta_hold;
      }

  fetch_inst : Core P C → Transaction → ℕ → Option (Core P C)
  unfolding steer
  fetch_inst c t now = do
    let inst = t.trace_inst
    let real_taken = is_set inst.is_branch && is_set inst.br_taken
    let real_target = if real_taken then inst.mem_addr else 0
    (pred, bpu1) ← Unit.predict_at_fetch api c.bpu inst.pc (is_set inst.is_branch)
    let (accurate, bpu2) = Unit.judge bpu1 real_taken real_target pred
    let tally = if accurate then c.tally else Stall.flush_stall_cycles c.tally now
    let early = accurate && pred.will_redirect
    ports ← io.read_req c.ports imem inst.pc now
    let candidate = record (held t) { br_pred = pred; br_mispred = not accurate }
    queue ← Ifq.push_back c.fetch_queue candidate
    some (record c {
      input_buffer = none;
      bpu = bpu2;
      ports = ports;
      fetch_queue = queue;
      fetch_state = steer c.fetch_state inst real_taken accurate pred now;
      tally = record tally {
        stats = record tally.stats {
          early_redirects =
              if early then incr tally.stats.early_redirects else tally.stats.early_redirects;
        };
      };
    })

  fetch_input : Core P C → Option Transaction → ℕ → Option (Core P C)
  unfolding fetch_inst
  fetch_input c none now = some c
  fetch_input c (some t) now = fetch_inst c t now

  -- In drain mode without an instruction the buffer is empty, too.
  normal_fetch : Core P C → ℕ → Option (Core P C)
  unfolding fetch_input
  normal_fetch c now =
      let fetched = fetch_input c c.input_buffer now in
      if Ifq.full c.fetch_queue then some c else fetched

  -- The flush in Execute ends the wrong path.
  abbrev pub off_wrong_path : Core P C → Core P C
  off_wrong_path c = record c {
    fetch_state = record c.fetch_state { wrong_path = false; wp_flushed = false };
  }

  request : Core P C → ℕ → Option (Core P C)
  unfolding early_redirect wrong_fetch normal_fetch
  request c now =
      let f = c.fetch_state in
      let early = early_redirect c now in
      let wrong = wrong_fetch c now in
      let back = normal_fetch (off_wrong_path c) now in
      let normal = normal_fetch c now in
      if ltb 0 f.early_redir_remaining
      then early
      else if f.wrong_path
      then (if f.wp_flushed then back else wrong)
      else normal

  pub do_fetch_0 : Core P C → ℕ → Option (Core P C)
  unfolding request
  do_fetch_0 c now =
      let (r_ready, w_ready) = io.is_ready c.ports imem in
      let requests = request c now in
      if ltb now c.fetch_state.resume_tick
      then some (stall c br_mispred now)
      else if r_ready
      then requests
      else some c

  pub feed_inst : Core P C → TraceInst → ℕ → Option (Core P C)
  feed_inst c inst now = do
    assert (not (present c.input_buffer))
    do_fetch_0
        (record c {
          ongoing_insts = incr c.ongoing_insts;
          input_buffer = some (transaction inst false false);
        })
        now
