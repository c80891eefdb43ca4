-- ===== src/Examples/Values.antt =====
-- Test data: integers in the place of floats, a server, a system, a scanner and a job.
use rediver_sdk_go.Prelude.{
  ℕ, ◌+◌, ◌*◌, true, false, String, none, some, [], ◌∷◌, ℤ, pos, ltb_ℤ, ◌==◌,
}
use rediver_sdk_go.Errors.{nil}
use rediver_sdk_go.Retry.{FloatArith, RetryPolicy}
use rediver_sdk_go.Result.{Domain, Result}
use rediver_sdk_go.Job.Message.{JobDetail, CiEvent, GitProvider}
use rediver_sdk_go.Job.Repository.{Repository}
use rediver_sdk_go.Repo.Git.{Machine}
use rediver_sdk_go.Scanner.Metadata.{Structs}
use rediver_sdk_go.Agent.Rpc.{World, Server, TokenManager}
use rediver_sdk_go.Agent.Prepare.{System}
use rediver_sdk_go.Agent.Execute.{Agent}

abbrev pub times : ℤ → ℤ → ℤ
times (pos a) (pos b) = pos (a * b)
times _ _ = pos 0

abbrev pub plus : ℤ → ℤ → ℤ
plus (pos a) (pos b) = pos (a + b)
plus _ _ = pos 0

abbrev pub int_float : FloatArith ℤ
int_float = record {
  of_int = λ d. d;
  mul = times;
  add = plus;
  pow = λ x n. x;
  gt = λ a b. ltb_ℤ b a;
  two = pos 2;
  quarter = pos 0;
  to_duration = λ x. x;
  zero = pos 0;
}

abbrev pub three_times : RetryPolicy ℤ
three_times = record {
  max_attempts = pos 3;
  initial_backoff = pos 100;
  max_backoff = pos 150;
  backoff_multiplier = pos 2;
  jitter = false;
  retryable_status_codes = pos 429 ∷ pos 503 ∷ [];
}

abbrev pub merge_request : Repository
merge_request = record {
  url = "https://gitlab.com/a/b.git";
  provider = "gitlab";
  event = "pull_request";
  ref = "refs/heads/topic";
  branch = "topic";
  commit_sha = "c0ffee";
  base_branch = "main";
  base_commit_sha = "";
  pr_number = pos 7;
  artifact_id = "";
  diff_only = false;
  username = "";
  password = "";
}

abbrev pub branch_push : Repository
branch_push = record merge_request { event = "push"; base_branch = "" }

abbrev pub tag_push : Repository
tag_push = record merge_request { event = "tag"; ref = "refs/tags/v1"; branch = "" }

abbrev pub detail : JobDetail ℕ
detail = record {
  id = "job-1";
  retest = false;
  scanner = "sast";
  timeout_minutes = pos 5;
  version = pos 1;
  target = some (record {
    domains = [];
    ips = [];
    subnets = [];
    services = [];
    repository = some (record {
      target = some (record {
        url = "https://gitlab.com/a/b.git";
        provider = GitProvider.gitlab;
        event = CiEvent.push;
        branch = "main";
        tag = "";
        commit_sha = "";
        base_branch = "";
        base_commit_sha = "";
        pull_request_number = pos 0;
      });
      artifact_id = "art-1";
      diff_only = false;
      credential = none;
    });
  });
  integration = none;
  params = some (("depth", 3) ∷ []);
}

abbrev pub server : Server ℕ String ℕ
server = record {
  err = λ history. nil;
  job = λ history. ("job-1", "sast");
  token = λ history. "jwt";
  runner = λ history. "run-1";
  detail = λ history. detail;
  artifact = λ history. record {
    presigned_url = "https://files/art-1";
    encryption_algorithm = "";
    encryption_key = "";
  };
  transcode = λ rpc. nil;
}

abbrev pub tokens : TokenManager
tokens = record { agent_token = "rat-1"; runner_id = "run-1" }

-- A machine whose state counts the commands that it ran.
abbrev pub machine : Machine ℕ
machine = record {
  run = λ dir args n. (record { stdout = "abc" ∷ []; stderr = []; err = nil }, n + 1);
  mkdir_all = λ dir n. (nil, n + 1);
  is_missing = λ path n. true;
}

abbrev pub system : System ℕ
system = record {
  machine = machine;
  files = record {
    mkdir_all = λ path n. (nil, n + 1);
    write_file = λ path content n. (nil, n + 1);
    dir = λ path. "/";
  };
  mkdir_temp = λ pattern n. (("/tmp/x", nil), n + 1);
  remove_all = λ path n. (nil, n + 1);
  http_get = λ url n. (record { err = nil; status = pos 200; body = []; read_err = nil }, n + 1);
  cipher = record {
    raw_url = λ s. none;
    std = λ s. none;
    key_is_valid = λ k. false;
    nonce_size = 12;
    open_sealed = λ k n c. none;
  };
  untar = λ bs. some ([], nil);
  url_with = λ raw user. some raw;
}

abbrev pub example_domain : Domain
example_domain = record {
  domain = "example.com";
  a = some ("192.0.2.1" ∷ []);
  aaaa = some [];
  cname = "";
  mx = none;
  txt = none;
  soa = none;
  ns = none;
  ttl = pos 300;
}

abbrev pub one_domain : Result ℕ
one_domain = record { domains = example_domain ∷ []; services = []; findings = [] }

abbrev pub agent : Agent ℕ ℤ ℕ String ℕ
agent = record {
  server = server;
  token_manager = tokens;
  system = system;
  clock = record {
    done = λ n. nil;
    wait = λ d n. (nil, n + 1);
    random = λ n. pos 0;
    parse_time = λ s. some s;
    is_zero_float = λ n. n == 0;
    error_text = λ e. "error";
  };
  scanner = record {
    name = "sast";
    display_name = "";
    params = [];
    params_schema = none;
    handler = λ j n. ((one_domain ∷ [], nil), n + 1);
    retest_handler = none;
    asset_types = [];
  };
  float = int_float;
  retry_policy = three_times;
  log_level = pos 0;
}

abbrev pub start : World ℕ ℕ String ℕ
start = record { history = []; local = 0 }

-- Messages that hold nothing.
abbrev pub structs : Structs ℤ ℕ
structs = record { of_map = λ m. some []; of_schema = λ s. some [] }
