-- ===== src/Collector/Queries/CostExpressions.antt =====
-- The expressions of QueryMap of internal/collector/queries.go whose names begin with "cost:".
use koku_metrics_operator.Base.{String, List, [], ◌∷◌}

abbrev pub cost_expressions : List (String × String)
cost_expressions =
    (
      "cost:node_allocatable_cpu_cores",
      "kube_node_status_allocatable{resource='cpu'} * on(node) group_left(provider_id) max by (node, provider_id) (kube_node_info) ",
    )
    ∷ (
      "cost:node_allocatable_memory_bytes",
      "kube_node_status_allocatable{resource='memory'} * on(node) group_left(provider_id) max by (node, provider_id) (kube_node_info)",
    )
    ∷ (
      "cost:node_capacity_cpu_cores",
      "kube_node_status_capacity{resource='cpu'} * on(node) group_left(provider_id) max by (node, provider_id) (kube_node_info)",
    )
    ∷ (
      "cost:node_capacity_memory_bytes",
      "kube_node_status_capacity{resource='memory'} * on(node) group_left(provider_id) max by (node, provider_id) (kube_node_info)",
    )
    ∷ (
      "cost:persistentvolume_pod_info",
      "kube_pod_spec_volumes_persistentvolumeclaims_info * on(persistentvolumeclaim, namespace) group_left(volumename) max by(namespace, persistentvolumeclaim, volumename) (kube_persistentvolumeclaim_info{volumename != ''})",
    )
    ∷ (
      "cost:persistentvolumeclaim_capacity_bytes",
      "kube_persistentvolume_capacity_bytes{persistentvolume != ''}",
    )
    ∷ (
      "cost:persistentvolumeclaim_request_bytes",
      "kube_persistentvolumeclaim_resource_requests_storage_bytes * on(persistentvolumeclaim, namespace) group_left(volumename) max by(namespace, persistentvolumeclaim, volumename) (kube_persistentvolumeclaim_info{volumename != ''})",
    )
    ∷ (
      "cost:persistentvolumeclaim_usage_bytes",
      "kubelet_volume_stats_used_bytes * on(persistentvolumeclaim, namespace) group_left(volumename) max by(namespace, persistentvolumeclaim, volumename) (kube_persistentvolumeclaim_info{volumename != ''})",
    )
    ∷ (
      "cost:persistentvolume_labels",
      "kube_persistentvolume_labels * on(persistentvolume, namespace) group_left(storageclass, csi_driver, csi_volume_handle) max by(namespace, persistentvolume, storageclass, csi_driver, csi_volume_handle) (kube_persistentvolume_info)",
    )
    ∷ (
      "cost:persistentvolumeclaim_labels",
      "kube_persistentvolumeclaim_labels * on(persistentvolumeclaim, namespace) group_left(volumename) max by(namespace, persistentvolumeclaim, volumename) (kube_persistentvolumeclaim_info{volumename != ''})",
    )
    ∷ (
      "cost:pod_limit_cpu_cores",
      "sum by (pod, namespace, node) (kube_pod_container_resource_limits{pod!='', namespace!='', node!='', resource='cpu'} * on(pod, namespace) group_left max by (pod, namespace) (kube_pod_status_phase{phase='Running'}))",
    )
    ∷ (
      "cost:pod_request_cpu_cores",
      "sum by (pod, namespace, node) (kube_pod_container_resource_requests{pod!='', namespace!='', node!='', resource='cpu'} * on(pod, namespace) group_left max by (pod, namespace) (kube_pod_status_phase{phase='Running'}))",
    )
    ∷ (
      "cost:pod_usage_cpu_cores",
      "sum by (pod, namespace, node) (rate(container_cpu_usage_seconds_total{container!='', container!='POD', pod!='', namespace!='', node!=''}[5m]))",
    )
    ∷ (
      "cost:pod_limit_memory_bytes",
      "sum by (pod, namespace, node) (kube_pod_container_resource_limits{pod!='', namespace!='', node!='', resource='memory'} * on(pod, namespace) group_left max by (pod, namespace) (kube_pod_status_phase{phase='Running'}))",
    )
    ∷ (
      "cost:pod_request_memory_bytes",
      "sum by (pod, namespace, node) (kube_pod_container_resource_requests{pod!='', namespace!='', node!='', resource='memory'} * on(pod, namespace) group_left max by (pod, namespace) (kube_pod_status_phase{phase='Running'}))",
    )
    ∷ (
      "cost:pod_usage_memory_bytes",
      "sum by (pod, namespace, node) (container_memory_usage_bytes{container!='', container!='POD', pod!='', namespace!='', node!=''})",
    )
    ∷ (
      "cost:pod_labels",
      "kube_pod_labels{namespace!='',pod!=''} * on(pod, namespace) group_left max by (pod, namespace) (kube_pod_status_phase{phase='Running'})",
    )
    ∷ (
      "cost:vm_cpu_limit_cores",
      "sum by (name, namespace) (kubevirt_vm_resource_limits{name!='', namespace!='', resource='cpu'}) * on (name, namespace) group_left max by (name, namespace) (kubevirt_vmi_info{phase='running'})",
    )
    ∷ (
      "cost:vm_cpu_request_cores",
      "sum by (name, namespace) (kubevirt_vm_resource_requests{name!='', namespace!='', resource='cpu', unit='cores'}) * on (name, namespace) group_left max by (name, namespace) (kubevirt_vmi_info{phase='running'})",
    )
    ∷ (
      "cost:vm_cpu_request_sockets",
      "sum by (name, namespace) (kubevirt_vm_resource_requests{name!='', namespace!='', resource='cpu', unit='sockets'}) * on (name, namespace) group_left max by (name, namespace) (kubevirt_vmi_info{phase='running'})",
    )
    ∷ (
      "cost:vm_cpu_request_threads",
      "sum by (name, namespace) (kubevirt_vm_resource_requests{name!='', namespace!='', resource='cpu', unit='threads'}) * on (name, namespace) group_left max by (name, namespace) (kubevirt_vmi_info{phase='running'})",
    )
    ∷ (
      "cost:vm_cpu_usage",
      "sum by (name, namespace) (rate(kubevirt_vmi_cpu_usage_seconds_total{name!='', namespace!=''}[5m])) * on (name, namespace) group_left max by (name, namespace) (kubevirt_vmi_info{phase='running'})",
    )
    ∷ (
      "cost:vm_memory_limit_bytes",
      "sum by (name, namespace) (kubevirt_vm_resource_limits{name!='', namespace!='', resource='memory'}) * on (name, namespace) group_left max by (name, namespace) (kubevirt_vmi_info{phase='running'})",
    )
    ∷ (
      "cost:vm_memory_request_bytes",
      "sum by (name, namespace) (kubevirt_vm_resource_requests{name!='', namespace!='', resource='memory'}) * on (name, namespace) group_left max by (name, namespace) (kubevirt_vmi_info{phase='running'})",
    )
    ∷ (
      "cost:vm_memory_usage_bytes",
      "sum by (name, namespace) (sum_over_time(kubevirt_vmi_memory_used_bytes{name!='', namespace!=''}[5m])) * on (name, namespace) group_left max by (name, namespace) (kubevirt_vmi_info{phase='running'})",
    )
    ∷ (
      "cost:vm_info",
      "sum by (name, namespace, node, os, instance_type, guest_os_name, guest_os_version_id, guest_os_arch) (kubevirt_vmi_info{phase='running'}) * on(node) group_left(provider_id) max by (node, provider_id) (kube_node_info)",
    )
    ∷ (
      "cost:vm_disk_allocated_size_bytes",
      "sum by (name, namespace, device, persistentvolumeclaim, volume_mode) (kubevirt_vm_disk_allocated_size_bytes{name!='', namespace!=''}) * on (name, namespace) group_left max by (name, namespace) (kubevirt_vmi_info{phase='running'})",
    )
    ∷ ("cost:vm_labels", "kubevirt_vm_labels{name!='', namespace!=''}")
    ∷ (
      "cost:nvidia_gpu_capacity_memory_mib_mig",
      "DCGM_FI_PROF_GR_ENGINE_ACTIVE{UUID!=''} * on(exported_pod, exported_namespace) group_left(pod, namespace) max by (exported_pod, exported_namespace) (label_replace(label_replace(kube_pod_status_phase{phase='Running'}, 'exported_pod', '$1', 'pod', '(.*)'), 'exported_namespace', '$1', 'namespace', '(.*)')) * on(Hostname) group_left(label_nvidia_com_gpu_memory, label_nvidia_com_mig_strategy) label_replace(kube_node_labels{label_nvidia_com_gpu_memory!=''}, 'Hostname', '$1', 'node', '(.+)')",
    )
    ∷ (
      "cost:nvidia_gpu_capacity_memory_mib_non_mig",
      "sum by (pod, namespace, node, label_nvidia_com_gpu_memory) ((kube_pod_container_resource_requests{pod!='', namespace!='', node!='', resource='nvidia_com_gpu'} * on(pod, namespace) group_left max by (pod, namespace) (kube_pod_status_phase{phase='Running'})) * on(node) group_left(label_nvidia_com_gpu_memory) (max by (node, label_nvidia_com_gpu_memory) (kube_node_labels)))",
    )
    ∷ (
      "cost:nvidia_gpu_utilization",
      "sum by (exported_pod, exported_namespace, Hostname, UUID, modelName, GPU_I_ID, GPU_I_PROFILE, device) (DCGM_FI_PROF_GR_ENGINE_ACTIVE{UUID!=''}) * on(exported_pod, exported_namespace) group_left(pod, namespace) max by (exported_pod, exported_namespace) (label_replace(label_replace(kube_pod_status_phase{phase='Running'}, 'exported_pod', '$1', 'pod', '(.*)'), 'exported_namespace', '$1', 'namespace', '(.*)'))",
    )
    ∷ (
      "cost:nvidia_gpu_max_slices",
      "sum by (exported_pod, exported_namespace, Hostname, UUID, modelName, GPU_I_ID, GPU_I_PROFILE) (DCGM_FI_DEV_MIG_MAX_SLICES{UUID!=''}) * on(exported_pod, exported_namespace) group_left(pod, namespace) max by (exported_pod, exported_namespace) (label_replace(label_replace(kube_pod_status_phase{phase='Running'}, 'exported_pod', '$1', 'pod', '(.*)'), 'exported_namespace', '$1', 'namespace', '(.*)'))",
    )
    ∷ []
