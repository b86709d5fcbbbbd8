-- ===== src/Tests/Serving.antt =====
-- The metrics server, on a text whose characters take more than one byte.
use gpu_dead_node_detector.Common.{some, ◌≡◌}
use gpu_dead_node_detector.Main.Serving.{metrics_response}
use gpu_dead_node_detector.Main.Serving.Response.{read_response, read_response-metrics_response}

read_response-metrics_response_example :
    read_response (metrics_response "gdnd_gpu_temperature{unit=\"°C\"} 45\n")
    ≡ some ("gdnd_gpu_temperature{unit=\"°C\"} 45\n", "")
read_response-metrics_response_example =
    read_response-metrics_response "gdnd_gpu_temperature{unit=\"°C\"} 45\n"
