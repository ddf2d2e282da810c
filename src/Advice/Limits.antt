-- ===== src/Advice/Limits.antt =====
-- memory_pressure.go, cpu_throttle.go and java_threads.go: what Kubernetes asks of the values advised.
