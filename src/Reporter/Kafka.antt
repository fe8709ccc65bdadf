-- ===== src/Reporter/Kafka.antt =====
-- plugins/core/reporter/kafka/kafka.go: the send loops, which are the same for segments, metrics and
-- logs, and the rounds of `check`. What the encoding and the writer do are inputs.
pub mod Laws
use skywalking_go.Base.{
  ℕ, zero, suc, ◌+◌, ◌%◌, Bool, true, false, ◌||◌, [], ◌∷◌, ◌++◌, List, if◌then◌else◌, length, ltb,
  leb, ◌==◌,
}
use skywalking_go.Reporter.Pipeline.{Transformed, panics, is_nil, object}

-- What becomes of one message: the encoding panics, or fails, or the writer gives an error, or takes it.
pub data Written : Type 0 where
  marshal_panics marshal_fails write_fails written : Written

-- A send loop and its channel. `messages` are those that the writer took, and `logged` counts the
-- errors of the writer that were logged.
pub record SendLoop (M : Type 0) : Type 0 where
  pub send_ch : List M
  pub is_closed : Bool
  pub writer_closed : Bool
  pub consecutive_errors : ℕ
  pub messages : List M
  pub logged : ℕ

abbrev pub max_send_queue_size : ℕ
max_send_queue_size = 30000

abbrev log_frequency : ℕ
log_frequency = 30

module _ {M : Type 0} where
  pub new_send_loop : SendLoop M
  new_send_loop = record {
    send_ch = [];
    is_closed = false;
    writer_closed = false;
    consecutive_errors = 0;
    messages = [];
    logged = 0;
  }

  -- `SendTracing`, and `SendMetrics` and `SendLog`, whose transforms do not panic or give `nil`.
  pub send : Transformed M → SendLoop M → SendLoop M
  send panics l = l
  send is_nil l = l
  send (object s) l =
      if l.is_closed
      then l
      else if ltb (length l.send_ch) max_send_queue_size
      then record l { send_ch = l.send_ch ++ (s ∷ []) }
      else l

  -- What `Close` does after `Boot`, in two steps: it closes the channel of each loop, then the writer. The
  -- loop goes on between and after them.
  pub close_channel : SendLoop M → SendLoop M
  close_channel l = record l { is_closed = true }

  pub close_writer : SendLoop M → SendLoop M
  close_writer l = record l { writer_closed = true }

  write_fails_of : SendLoop M → SendLoop M
  write_fails_of l = record l {
    consecutive_errors = l.consecutive_errors + 1;
    logged =
        if (l.consecutive_errors + 1 == 1) || ((l.consecutive_errors + 1) % log_frequency == 0)
        then l.logged + 1
        else l.logged;
  }

  -- A message that the channel gave, and what the encoding and the writer make of it.
  pub write_one : Written → M → SendLoop M → SendLoop M
  unfolding write_fails_of
  write_one marshal_panics s l = l
  write_one marshal_fails s l = l
  write_one write_fails s l = write_fails_of l
  write_one written s l = record l {
    messages = l.messages ++ (s ∷ []);
    consecutive_errors = if ltb 0 l.consecutive_errors then 0 else l.consecutive_errors;
  }

  -- One round of the loop, which waits on an empty channel, and ends on one that is closed.
  pub round : Written → SendLoop M → SendLoop M
  unfolding write_one
  round o l = elim l.send_ch [ [] ↦ l | s ∷ rest ↦ write_one o s (record l { send_ch = rest }) ]

  pub rounds : List Written → SendLoop M → SendLoop M
  unfolding round
  rounds [] l = l
  rounds (o ∷ os) l = rounds os (round o l)

-- The messages for the backend that the writer took.
pub data Management : Type 0 where
  properties ping : Management

-- What one write of a round does: it fails, also when the encoding fails, or panics, or is done.
pub data Attempt : Type 0 where
  fails panics_out succeeds : Attempt

-- The variable of the goroutine, and what was written.
pub record Check : Type 0 where
  pub instance_properties_submitted : Bool
  pub log : List Management

pub new_check : Check
new_check = record { instance_properties_submitted = false; log = [] }

abbrev pub sends_ping : Attempt → List Management
sends_ping succeeds = ping ∷ []
sends_ping other = []

abbrev is_panic : Attempt → Bool
is_panic panics_out = true
is_panic other = false

-- The rest of `checkOnce`; a panic leaves the variable of the goroutine.
pub send_ping : Attempt → Check → Check
send_ping a c = record c {
  instance_properties_submitted = if is_panic a then c.instance_properties_submitted else true;
  log = c.log ++ sends_ping a;
}

-- One round: `checkOnce` under the recover.
pub check_once : Attempt → Attempt → Check → Check
unfolding send_ping
check_once a b c = if c.instance_properties_submitted then send_ping b c else elim a [
  | fails ↦ record c { instance_properties_submitted = false }
  | panics_out ↦ c
  | succeeds ↦ send_ping b (record c { log = c.log ++ (properties ∷ []) })
]

pub check_rounds : List (Attempt × Attempt) → Check → Check
unfolding check_once
check_rounds [] c = c
check_rounds ((a, b) ∷ rs) c = check_rounds rs (check_once a b c)
