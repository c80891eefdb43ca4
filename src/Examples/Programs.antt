-- ===== src/Examples/Programs.antt =====
-- The sample programs that run one job, on the server and the system of the test data.
use rediver_sdk_go.Prelude.{ℕ, ℤ, String}
use rediver_sdk_go.Samples.Programs.{
  Platform, ReportsExit, task_main, direct_job_main, programs-ReportsExit,
}
use rediver_sdk_go.Examples.Values.{agent, server, system, structs, start}
use rediver_sdk_go.Examples.Probes.{surroundings}

abbrev platform : Platform ℕ ℤ ℕ String ℕ ℕ
platform = record {
  server_at = λ url. server;
  system = system;
  clock = agent.clock;
  float = agent.float;
  structs = structs;
  ip_address = "192.0.2.7";
  env = record {
    logger = 0;
    hostname = "host";
    env_token = "rat-1";
    env_url = "";
    to_lower = λ s. s;
  };
}

programs-ReportsExit_example :
    ReportsExit start (task_main platform surroundings start)
    × ReportsExit start (direct_job_main platform surroundings start)
programs-ReportsExit_example = programs-ReportsExit platform surroundings start
